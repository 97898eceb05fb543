-- ===== src/Basic/CafStore/Entries.antt =====
-- What the entries of a store in src/Basic/CAFStore.cpp refer to.
use caf.Prelude.{
  ℕ, ◌≤◌, ◌<◌, ◌≡◌, sym, ◌∙◌, some, List, length, get_elem?, set, inl, inr, Bool-cases, arith,
  length-set, get_elem?_bound, get_elem?-set_self, get_elem?-set_ne, All, All-set, All-imp, ◌==◌,
  ==_iff,
}
use caf.Basic.CafStore.{Function, Entry, CafStore}

abbrev pub Contains : List Entry → ℕ → Function → Type 0
Contains es i f = (e : Entry) × (get_elem? es i ≡ some e) × (e.func ≡ some f)

abbrev pub HasFunction : List Entry → ℕ → Type 0
HasFunction es i = (f : Function) × Contains es i f

-- The children of an entry are entries of the store, and its descendents contain functions.
pub record IsValidEntry (es : List Entry) (e : Entry) : Type 0 where
  pub children : All (λ (name, i). i < length es) e.children
  pub descendents : All (HasFunction es) e.descendents

pub record IsValid (s : CafStore) : Type 0 where
  pub root : 0 < length s.entries
  pub entries : All (IsValidEntry s.entries) s.entries

-- No entry and no function is lost from the first list to the second.
pub record Keeps (es es' : List Entry) : Type 0 where
  pub grows : length es ≤ length es'
  pub functions : (i : ℕ) → HasFunction es i → HasFunction es' i

pub Keeps-refl : (es : List Entry) → Keeps es es
Keeps-refl es = record { grows = omega arith; functions = λ i h. h }

pub IsValidEntry-Keeps :
    {es es' : List Entry} {e : Entry} → Keeps es es' → IsValidEntry es e → IsValidEntry es' e
IsValidEntry-Keeps k v = record {
  children = All-imp _ _ (λ (name, i) h. omega (arith, h, k.grows)) _ v.children;
  descendents = All-imp _ _ k.functions _ v.descendents;
}

module _ (es : List Entry) (i : ℕ) (e e' : Entry) (found : get_elem? es i ≡ some e) where
  pub Contains-set_other :
      (f : Function) (j : ℕ) → e'.func ≡ e.func → Contains es j f → Contains (set es i e') j f
  Contains-set_other f j same (d, at_j, h) = elim (Bool-cases (i == j)) [
    | inl eq ↦
        let i_j = (==_iff i j).0 eq in
        (
          e',
          rw (sym i_j) (get_elem?-set_self es i e' (get_elem?_bound es i e found)),
          cc (same, h, found, at_j, i_j),
        )
    | inr ne ↦
        (d, get_elem?-set_ne es i j e' (λ i_j. absurd (cc (ne, (==_iff i j).1 i_j))) ∙ at_j, h)
  ]

  pub Keeps-set :
      ((f : Function) → e.func ≡ some f → (g : Function) × (e'.func ≡ some g))
      → Keeps es (set es i e')
  Keeps-set kept = record {
    grows = omega (arith, length-set es i e');
    functions = λ j (f, (d, at_j, h)). elim (Bool-cases (i == j)) [
      | inl eq ↦
          let i_j = (==_iff i j).0 eq in
          let (g, k) = kept f (cc (h, found, at_j, i_j)) in
          (g, (e', rw (sym i_j) (get_elem?-set_self es i e' (get_elem?_bound es i e found)), k))
      | inr ne ↦ (
        f,
        (d, get_elem?-set_ne es i j e' (λ i_j. absurd (cc (ne, (==_iff i j).1 i_j))) ∙ at_j, h),
      )
    ];
  }

  pub IsValidEntry-set :
      Keeps es (set es i e')
      → All (IsValidEntry es) es
      → IsValidEntry es e'
      → All (IsValidEntry (set es i e')) (set es i e')
  IsValidEntry-set k v v' =
      All-imp (IsValidEntry es) _ (λ d. IsValidEntry-Keeps k) _ (All-set _ es i e' v v')
