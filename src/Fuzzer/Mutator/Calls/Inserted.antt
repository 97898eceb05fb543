-- ===== src/Fuzzer/Mutator/Calls/Inserted.antt =====
-- Lists with one more element, as InsertFunctionCall of include/Fuzzer/TestCase.h makes them.
use caf.Prelude.{
  ℕ, zero, suc, ◌≤◌, ◌≡◌, refl, ap, List, [], ◌∷◌, ◌++◌, length, arith, take, drop, insert_idx,
}

module _ {A : Type 0} (a : A) where
  pub take-insert_idx :
      (xs : List A) (i k : ℕ)
      → i ≤ length xs
      → k ≡ suc i
      → take k (insert_idx xs i a) ≡ take i xs ++ a ∷ []
  take-insert_idx xs zero k h e = rw e refl
  take-insert_idx [] (suc i) k h e = absurd (omega arith)
  take-insert_idx (x ∷ xs) (suc i) k h e =
      rw e (ap (λ ys. x ∷ ys) (take-insert_idx xs i (suc i) (omega arith) refl))

  pub drop-insert_idx :
      (xs : List A) (i k : ℕ) → i ≤ length xs → k ≡ suc i → drop k (insert_idx xs i a) ≡ drop i xs
  drop-insert_idx xs zero k h e = rw e refl
  drop-insert_idx [] (suc i) k h e = absurd (omega arith)
  drop-insert_idx (x ∷ xs) (suc i) k h e = rw e (drop-insert_idx xs i (suc i) (omega arith) refl)

pub length-take : {A : Type 0} (xs : List A) (i : ℕ) → i ≤ length xs → length (take i xs) ≡ i
length-take xs zero h = refl
length-take [] (suc i) h = absurd (omega arith)
length-take (x ∷ xs) (suc i) h = ap suc (length-take xs i (omega arith))
