-- ===== src/Fuzzer/Scope/Levels.antt =====
-- How the scope of values changes as arrays are made and written, and with the levels of arrays.
use caf.Prelude.{
  ℕ, ◌≤◌, ◌<◌, ◌≡◌, refl, sym, subst, ◌∙◌, ap, List, [], ◌∷◌, ◌++◌, length, get_elem?, set, All,
  All-append, length-set, length-append, get_elem?-set_self, get_elem?-set_ne, get_elem?_bound,
  get_elem?_total, get_elem?-append_left, get_elem?-append_length, ◌==◌, ==_iff, Bool-cases, inl,
  inr, arith, ltb, ltb→lt, some-injective,
}
use caf.Fuzzer.Value.{Value, Arrays, push}
use caf.Fuzzer.ObjectPool.Leaves.{IsLeaf}
use caf.Fuzzer.Scope.{InScope, ArraysInScope}

pub IsLeaf-InScope : (level : ℕ → ℕ) (n i : ℕ) (v : Value) → IsLeaf v → InScope level n i v
IsLeaf-InScope level n i (Value.placeholder j) h = absurd h
IsLeaf-InScope level n i (Value.array a) h = absurd h
IsLeaf-InScope level n i Value.undefined h = tt
IsLeaf-InScope level n i Value.null h = tt
IsLeaf-InScope level n i (Value.boolean b) h = tt
IsLeaf-InScope level n i (Value.string s) h = tt
IsLeaf-InScope level n i (Value.function f) h = tt
IsLeaf-InScope level n i (Value.integer k) h = tt
IsLeaf-InScope level n i (Value.float d) h = tt

-- The levels of two assignments agree on the first `n` arrays.
abbrev pub Agree : (ℕ → ℕ) → (ℕ → ℕ) → ℕ → Type 0
Agree level level' n = (a : ℕ) → a < n → level' a ≡ level a

module _ (level level' : ℕ → ℕ) (n n' i : ℕ) (agree : Agree level level' n) (le : n ≤ n') where
  pub InScope-mono : (v : Value) → InScope level n i v → InScope level' n' i v
  InScope-mono (Value.placeholder j) h = h
  InScope-mono (Value.array a) h = (omega (arith, h.0), omega (arith, h.1, agree a h.0))
  InScope-mono Value.undefined h = tt
  InScope-mono Value.null h = tt
  InScope-mono (Value.boolean b) h = tt
  InScope-mono (Value.string s) h = tt
  InScope-mono (Value.function f) h = tt
  InScope-mono (Value.integer k) h = tt
  InScope-mono (Value.float d) h = tt

  pub All-InScope-mono :
      (vs : List Value) → All (InScope level n i) vs → All (InScope level' n' i) vs
  All-InScope-mono [] h = tt
  All-InScope-mono (v ∷ vs) h = (InScope-mono v h.0, All-InScope-mono vs h.1)

module _ (level : ℕ → ℕ) (heap : Arrays) (h : ArraysInScope level heap) where
  pub ArraysInScope-Agree :
      (level' : ℕ → ℕ) → Agree level level' (length heap) → ArraysInScope level' heap
  ArraysInScope-Agree level' agree a xs e =
      let same = agree a (get_elem?_bound heap a xs e) in
      All-InScope-mono level level' (length heap) (length heap) (level' a) agree (omega arith) xs
        (rw same (h a xs e))

  pub ArraysInScope-new : ArraysInScope level (heap ++ [] ∷ [])
  ArraysInScope-new a xs e = elim (Bool-cases (ltb a (length heap))) [
    | inl old ↦
        All-InScope-mono level level (length heap) (length (heap ++ [] ∷ [])) (level a)
          (λ b lt. refl) (omega (arith, length-append heap ([] ∷ []))) xs
          (let (zs, at_a) = get_elem?_total heap a (ltb→lt a (length heap) old) in
            let same = sym (get_elem?-append_left heap ([] ∷ []) a zs at_a) ∙ e in
            h a xs (at_a ∙ same))
    | inr new ↦
        let here : a ≡ length heap =
          ground
            (arith, new, get_elem?_bound (heap ++ [] ∷ []) a xs e, length-append heap ([] ∷ [])) in
        subst (All (InScope level (length (heap ++ [] ∷ [])) (level a)))
          (some-injective _ _ (
            sym (get_elem?-append_length heap [] [])
            ∙ (ap (get_elem? (heap ++ [] ∷ [])) (sym here) ∙ e)))
          tt
  ]

  pub ArraysInScope-set :
      (a : ℕ) (xs : List Value)
      → All (InScope level (length heap) (level a)) xs
      → ArraysInScope level (set heap a xs)
  ArraysInScope-set a xs k b ys e = rw (length-set heap a xs) (elim (Bool-cases (a == b)) [
    | inl same ↦
        let a_b = (==_iff a b).0 same in
        let below : a < length heap =
          omega (arith, length-set heap a xs, get_elem?_bound (set heap a xs) b ys e, a_b) in
        subst (λ zs. All (InScope level (length heap) (level b)) zs)
          (some-injective _ _ (cc (get_elem?-set_self heap a xs below, e, a_b))) (rw a_b at k)
    | inr differs ↦
        h b ys (
          sym (get_elem?-set_ne heap a b xs (λ a_b. absurd (cc (differs, (==_iff a b).1 a_b)))) ∙ e)
  ])

  pub length-push : (a : ℕ) (v : Value) → a < length heap → length (push a v heap) ≡ length heap
  unfolding push
  length-push a v below =
      let (xs, e) = get_elem?_total heap a below in rw (e, push) (length-set heap a (xs ++ v ∷ []))

  pub ArraysInScope-push :
      (a : ℕ) (v : Value)
      → a < length heap
      → InScope level (length heap) (level a) v
      → ArraysInScope level (push a v heap)
  unfolding push
  ArraysInScope-push a v below k =
      let (xs, e) = get_elem?_total heap a below in
      rw (e, push)
        (ArraysInScope-set a (xs ++ v ∷ [])
          (All-append (InScope level (length heap) (level a)) xs (v ∷ []) (h a xs e) (k, tt)))
