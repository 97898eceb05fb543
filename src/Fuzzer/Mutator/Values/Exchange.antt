-- ===== src/Fuzzer/Mutator/Values/Exchange.antt =====
-- ExchangeElements of src/Fuzzer/TestCaseMutator.cpp against the std::swap of ExchangeCharacters.
use caf.Prelude.{
  ℕ, zero, suc, ◌+◌, ◌<◌, ◌≡◌, ◌≢◌, refl, sym, ap, ◌∙◌, Bool-cases, inl, inr, some, List, [], ◌∷◌,
  length, drop, set, get_elem?, get_elem?_total, get_elem?-set_self, get_elem?-set_ne, length-set,
  lt→ltb, ◌==◌, ==_iff, arith,
}
use caf.Infrastructure.Result.{ok}
use caf.Fuzzer.Value.{Value}
use caf.Fuzzer.Mutator.{swap}
use caf.Fuzzer.Mutator.Values.{exchange, exchanged}

drop-get_elem? :
    {A : Type 0} (xs : List A) (k : ℕ) (x : A)
    → get_elem? xs k ≡ some x
    → drop k xs ≡ x ∷ drop (suc k) xs
drop-get_elem? [] k x h = absurd (cc h)
drop-get_elem? (y ∷ ys) zero x h = let same : y ≡ x = cc h in ap (λ z. z ∷ ys) same
drop-get_elem? (y ∷ ys) (suc k) x h = drop-get_elem? ys k x h

drop-length : {A : Type 0} (xs : List A) (k : ℕ) → k ≡ length xs → drop k xs ≡ []
drop-length [] zero h = refl
drop-length [] (suc k) h = absurd (omega (arith, h))
drop-length (x ∷ xs) zero h = absurd (omega (arith, h))
drop-length (x ∷ xs) (suc k) h = drop-length xs k (omega (arith, h))

-- The loop copies `zs` where `zs` has at each position the element that comes there.
exchanged-drop :
    (xs zs : List Value) (i j k n : ℕ)
    → ((m : ℕ) → m < length zs → get_elem? xs (exchange i j m) ≡ get_elem? zs m)
    → k + n ≡ length zs
    → exchanged xs i j k n ≡ ok (drop k zs)
unfolding exchanged
exchanged-drop xs zs i j k zero h e = rw (drop-length zs k (omega (arith, e))) refl
exchanged-drop xs zs i j k (suc n) h e =
    let (v, at_k) = get_elem?_total zs k (omega (arith, e)) in
    let found : get_elem? xs (exchange i j k) ≡ some v = h k (omega (arith, e)) ∙ at_k in
    let next : k + 1 ≡ suc k = omega arith in
    rw
      (
        found,
        exchanged-drop xs zs i j (k + 1) n h (omega (arith, e)),
        drop-get_elem? zs k v at_k,
        next,
      )
      refl

swapped-get_elem? :
    (xs : List Value) (i j : ℕ) (a b : Value)
    → get_elem? xs i ≡ some a
    → get_elem? xs j ≡ some b
    → i < length xs
    → j < length xs
    → (m : ℕ) → get_elem? xs (exchange i j m) ≡ get_elem? (set (set xs i b) j a) m
swapped-get_elem? xs i j a b at_i at_j i_lt j_lt m =
    let here : get_elem? (set (set xs i b) j a) j ≡ some a =
      get_elem?-set_self (set xs i b) j a (omega (arith, j_lt, length-set xs i b)) in
    elim (Bool-cases (m == i)) [
      | inl e ↦
          let m_i : m ≡ i = (==_iff m i).0 e in
          elim (Bool-cases (i == j)) [
            | inl d ↦
                let i_j : i ≡ j = (==_iff i j).0 d in
                rw e (
                  sym (ap (get_elem? xs) i_j)
                  ∙ at_i
                  ∙ sym here
                  ∙ ap (get_elem? (set (set xs i b) j a)) (sym i_j ∙ sym m_i))
            | inr d ↦
                let apart : j ≢ m = λ j_m. ground (arith, d, j_m, m_i) in
                rw e (
                  at_j
                  ∙ sym (get_elem?-set_self xs i b i_lt)
                  ∙ ap (get_elem? (set xs i b)) (sym m_i)
                  ∙ sym (get_elem?-set_ne (set xs i b) j m a apart))
          ]
      | inr e ↦ elim (Bool-cases (m == j)) [
        | inl d ↦
            let m_j : m ≡ j = (==_iff m j).0 d in
            rw (e, d) (at_i ∙ sym here ∙ ap (get_elem? (set (set xs i b) j a)) (sym m_j))
        | inr d ↦
            let not_i : i ≢ m = λ i_m. ground (arith, e, i_m) in
            let not_j : j ≢ m = λ j_m. ground (arith, d, j_m) in
            rw (e, d)
              (sym (get_elem?-set_ne xs i m b not_i)
                ∙ sym (get_elem?-set_ne (set xs i b) j m a not_j))
      ]
    ]

-- At two positions of an array, the same one also, the loop that copies the array with its elements
-- exchanged returns what std::swap makes of the copied elements.
pub exchanged-swap :
    (xs : List Value) (i j : ℕ)
    → i < length xs
    → j < length xs
    → exchanged xs i j 0 (length xs) ≡ swap xs i j
exchanged-swap xs i j i_lt j_lt =
    let (a, at_i) = get_elem?_total xs i i_lt in
    let (b, at_j) = get_elem?_total xs j j_lt in
    let zs = set (set xs i b) j a in
    let same_length : length zs ≡ length xs =
      omega (arith, length-set (set xs i b) j a, length-set xs i b) in
    exchanged-drop xs zs i j 0 (length xs)
      (λ m lt. swapped-get_elem? xs i j a b at_i at_j i_lt j_lt m) (omega (arith, same_length))
    ∙ rw (lt→ltb i (length xs) i_lt, lt→ltb j (length xs) j_lt, at_i, at_j) refl
