-- ===== src/Basic/CafStore/Descendents.antt =====
-- What each operation of src/Basic/CAFStore.cpp does to the entries of a store.
use caf.Prelude.{
  ℕ, ◌<◌, ◌≡◌, refl, subst, some, List, [], ◌∷◌, ◌++◌, length, get_elem?, inl, inr, Option-cases,
  Bool-cases, arith, length-append, length-set, get_elem?-append_left, get_elem?_total,
  get_elem?-set_self, All, All-append, All-get_elem?, All-imp,
}
use caf.Fuzzer.ObjectPool.{string_eq}
use caf.Basic.CafStore.{
  Function, Entry, CafStore, new_entry, find_child, add_child, add_descendent, set_function,
  update_entry, create_entry, enter_child, walk, add_descendents,
}
use caf.Basic.CafStore.Entries.{
  Contains, HasFunction, IsValidEntry, IsValid, Keeps, Keeps-refl, IsValidEntry-Keeps, Keeps-set,
  IsValidEntry-set,
}

-- What an operation on a valid store leaves.
pub record Leaves (s s' : CafStore) : Type 0 where
  pub valid : IsValid s'
  pub keeps : Keeps s.entries s'.entries

Leaves-refl : {s : CafStore} → IsValid s → Leaves s s
Leaves-refl v = record { valid = v; keeps = Keeps-refl _ }

pub Leaves-trans : {s s' s'' : CafStore} → Leaves s s' → Leaves s' s'' → Leaves s s''
Leaves-trans l m = record {
  valid = m.valid;
  keeps = record {
    grows = omega (arith, l.keeps.grows, m.keeps.grows);
    functions = λ i h. m.keeps.functions i (l.keeps.functions i h);
  };
}

module _ (s : CafStore) (v : IsValid s) (i : ℕ) where
  -- A change of one entry that keeps its function and leaves it valid.
  update-Leaves :
      (change : Entry → Entry)
      → ((e : Entry) (f : Function) → e.func ≡ some f → (g : Function) × ((change e).func ≡ some g))
      → ((e : Entry)
          → get_elem? s.entries i ≡ some e
          → IsValidEntry s.entries e
          → IsValidEntry s.entries (change e))
      → Leaves s (update_entry i change s)
  update-Leaves change kept changed = elim (Option-cases (get_elem? s.entries i)) [
    | inl none_at ↦ rw (none_at, update_entry) (Leaves-refl v)
    | inr (e, at_i) ↦
        let k = Keeps-set s.entries i e (change e) at_i (kept e) in
        rw (at_i, update_entry)
          (record {
            valid = record {
              root = omega (arith, v.root, length-set s.entries i (change e));
              entries =
                  IsValidEntry-set s.entries i e (change e) at_i k v.entries
                    (changed e at_i (All-get_elem? _ s.entries i e v.entries at_i));
            };
            keeps = k;
          })
  ]

  pub set_function-Leaves : (f : Function) → Leaves s (update_entry i (set_function f) s)
  unfolding set_function
  set_function-Leaves f =
      update-Leaves (set_function f) (λ e g h. (f, refl))
        (λ e at_i w. record { children = w.children; descendents = w.descendents })

  add_child-Leaves :
      (name : List ℕ) (child : ℕ)
      → child < length s.entries
      → Leaves s (update_entry i (add_child name child) s)
  unfolding add_child
  add_child-Leaves name child h =
      update-Leaves (add_child name child)
        (λ e f k. elim (Option-cases (find_child name e.children)) [
          | inl absent ↦ (f, rw (absent, add_child) k)
          | inr (j, there) ↦ (f, rw (there, add_child) k)
        ])
        (λ e at_i w. elim (Option-cases (find_child name e.children)) [
          | inl absent ↦
              rw (absent, add_child)
                (record { children = (h, w.children); descendents = w.descendents })
          | inr (j, there) ↦ rw (there, add_child) w
        ])

  add_descendent-Leaves :
      (d : ℕ) → HasFunction s.entries d → Leaves s (update_entry i (add_descendent d) s)
  unfolding add_descendent
  add_descendent-Leaves d h =
      update-Leaves (add_descendent d) (λ e f k. (f, k))
        (λ e at_i w. record {
          children = w.children;
          descendents = All-append _ e.descendents (d ∷ []) w.descendents (h, tt);
        })

  pub set_function-Contains :
      (f : Function)
      → i < length s.entries
      → Contains (update_entry i (set_function f) s).entries i f
  unfolding set_function
  set_function-Contains f h =
      let (e, at_i) = get_elem?_total s.entries i h in
      rw (at_i, update_entry)
        (set_function f e, get_elem?-set_self s.entries i (set_function f e) h, refl)

create_entry-Leaves : (s : CafStore) → IsValid s → Leaves s (create_entry s).1
unfolding create_entry
create_entry-Leaves s v =
    let k : Keeps s.entries (s.entries ++ new_entry ∷ []) = record {
      grows = omega (arith, length-append s.entries (new_entry ∷ []));
      functions = λ i (f, (e, at_i, h)). (f, (e, get_elem?-append_left s.entries _ i e at_i, h));
    } in
    record {
      valid = record {
        root = omega (arith, v.root, k.grows);
        entries =
            All-append _ s.entries (new_entry ∷ [])
              (All-imp (IsValidEntry s.entries) _ (λ d. IsValidEntry-Keeps k) _ v.entries)
              (record { children = tt; descendents = tt }, tt);
      };
      keeps = k;
    }

created-length : (s : CafStore) → length s.entries < length (create_entry s).1.entries
unfolding create_entry
created-length s = omega (arith, length-append s.entries (new_entry ∷ []))

find_child-All :
    (P : List ℕ × ℕ → Type 0) (Q : ℕ → Type 0)
    → ((c : List ℕ × ℕ) → P c → Q c.1)
    → (name : List ℕ) (m : List (List ℕ × ℕ)) (i : ℕ) → All P m
    → find_child name m ≡ some i
    → Q i
find_child-All P Q f name [] i h e = cc
find_child-All P Q f name ((other, j) ∷ m) i h e = elim (Bool-cases (string_eq other name)) [
  | inl same ↦ subst Q (cc (rw same at e)) (f (other, j) h.0)
  | inr differs ↦ find_child-All P Q f name m i h.1 (rw differs at e)
]

record Enters (s : CafStore) (r : ℕ × CafStore) : Type 0 where
  pub leaves : Leaves s r.1
  pub below : r.0 < length r.1.entries

enter_child-Enters :
    (node : ℕ) (name : List ℕ) (s : CafStore)
    → IsValid s
    → node < length s.entries
    → Enters s (enter_child node name s)
unfolding enter_child
enter_child-Enters node name s v h =
    let (e, at_node) = get_elem?_total s.entries node h in
    elim (Option-cases (find_child name e.children)) [
      | inl absent ↦
          let made = create_entry-Leaves s v in
          let l =
            add_child-Leaves (create_entry s).1 made.valid node name (length s.entries)
              (created-length s) in
          rw (at_node, enter_child, absent)
            (record {
              leaves = Leaves-trans made l;
              below = omega (arith, created-length s, l.keeps.grows);
            })
      | inr (i, there) ↦
          rw (at_node, enter_child, there)
            (record {
              leaves = Leaves-refl v;
              below =
                  find_child-All _ (λ j. j < length s.entries) (λ c k. k) name e.children i
                    (All-get_elem? _ s.entries node e v.entries at_node).children there;
            })
    ]

-- The entry of the whole name is an entry of the store.
pub record Walks (s : CafStore) (r : List ℕ × ℕ × CafStore) : Type 0 where
  pub leaves : Leaves s r.2
  pub below : r.1 < length r.2.entries

pub walk-Walks :
    (node : ℕ) (names : List (List ℕ)) (s : CafStore)
    → IsValid s
    → node < length s.entries
    → Walks s (walk node names s)
unfolding walk
walk-Walks node [] s v h = record { leaves = Leaves-refl v; below = h }
walk-Walks node (name ∷ names) s v h =
    let step = enter_child-Enters node name s v h in
    let rest =
      walk-Walks (enter_child node name s).0 names (enter_child node name s).1 step.leaves.valid
        step.below in
    record { leaves = Leaves-trans step.leaves rest.leaves; below = rest.below }

pub add_descendents-Leaves :
    (d : ℕ) (path : List ℕ) (s : CafStore)
    → IsValid s
    → HasFunction s.entries d
    → Leaves s (add_descendents d path s)
unfolding add_descendents
add_descendents-Leaves d [] s v h = Leaves-refl v
add_descendents-Leaves d (p ∷ path) s v h =
    let l = add_descendent-Leaves s v p d h in
    Leaves-trans l (add_descendents-Leaves d path _ l.valid (l.keeps.functions d h))
