-- ===== src/Fuzzer/Mutator/Halting.antt =====
-- Steps of src/Fuzzer/TestCaseMutator.cpp that end, with a value or by an error.
use caf.Prelude.{
  ℕ, ◌≡◌, ◌==◌, refl, Bool, true, false, Option, none, some, List, length, Bool-cases, inl, inr,
  if◌then◌else◌,
}
use caf.Infrastructure.Result.{
  Result, Error, ok, throw, Ensures, returns, throws, Ensures->>=, Succeeds, returns_ok, or_throw,
}
use caf.Infrastructure.Random.{Platform, index, select, next}
use caf.Fuzzer.Value.{Value}
use caf.Fuzzer.ObjectPool.{ObjectPool}
use caf.Fuzzer.Generation.{
  GenState, M, ◌>>=◌, pure, fail, lift, draw, try_draw, from_pool, arrays, set_arrays,
}
use caf.Fuzzer.Generator.{Gen, choose, next_size, generate_string_character}
use caf.Fuzzer.Generator.Runs.{Runs, Any}

-- From each state the run ends, with a value or by an error.
pub record Halts {S A : Type 0} (m : M S A) : Type 0 where
  pub ends : (g : GenState S) → Ensures Any (m g)

module _ {S A : Type 0} where
  pub Halts->>= :
      {B : Type 0} {m : M S A} {f : A → M S B} → Halts m → ((a : A) → Halts (f a)) → Halts (m >>= f)
  Halts->>= h k = record { ends = λ g. Ensures->>= _ _ (h.ends g) (λ (a, g') t. (k a).ends g') }

  pub Halts-pure : (a : A) → Halts {S = S} (pure a)
  Halts-pure a = record { ends = λ g. returns _ tt }

  pub Halts-fail : (e : Error) → Halts {S = S} {A = A} (fail e)
  Halts-fail e = record { ends = λ g. throws e }

  pub Halts-draw : (f : S → A × S) → Halts (draw f)
  Halts-draw f = record { ends = λ g. returns _ tt }

  pub or_throw-Halts : (e : Error) (o : Option A) → Halts {S = S} (lift (or_throw e o))
  or_throw-Halts e none = Halts-fail e
  or_throw-Halts e (some a) = Halts-pure a

  Succeeds-Ensures : {r : Result (A × S)} → Succeeds Any r → Ensures Any r
  Succeeds-Ensures (returns_ok a t) = returns a t

pub Runs-Halts : {S A : Type 0} {m : M S A} → Runs Any m → Halts m
Runs-Halts h = record { ends = λ g. Succeeds-Ensures (h g) }

module _ {S : Type 0} where
  pub Halts-from_pool : (f : ObjectPool → Value × ObjectPool) → Halts {S = S} (from_pool f)
  Halts-from_pool f = record { ends = λ g. returns _ tt }

  pub Halts-arrays : Halts {S = S} arrays
  Halts-arrays = record { ends = λ g. returns _ tt }

  pub Halts-set_arrays : (heap : _) → Halts {S = S} (set_arrays heap)
  Halts-set_arrays heap = record { ends = λ g. returns _ tt }

module _ (platform : Platform) where
  found-Ends :
      {A : Type 0} (o : Option A) (e : platform.Engine)
      → Ensures {A = A × platform.Engine} Any
          (elim o [ none ↦ throw Error.undefined_behavior | some x ↦ ok (x, e) ])
  found-Ends none e = throws Error.undefined_behavior
  found-Ends (some x) e = returns (x, e) tt

  select-Ends :
      {A : Type 0} (xs : List A) (e : platform.Engine) → Ensures Any (select platform xs e)
  unfolding select index
  select-Ends xs e = elim (Bool-cases (length xs == 0)) [
    | inl none_left ↦ rw (none_left, select) (throws Error.undefined_behavior)
    | inr some_left ↦ rw (some_left, select) (found-Ends _ _)
  ]

  pub choose-Halts : {A : Type 0} (xs : List A) → Halts (choose platform xs)
  choose-Halts xs = record {
    ends = λ g. Ensures->>= _ _ (select-Ends xs g.engine) (λ (x, e) t. returns _ tt);
  }

  index_result-Ends : (n : ℕ) (e : platform.Engine) → Ensures Any (index platform n e)
  unfolding index
  index_result-Ends n e = elim (Bool-cases (n == 0)) [
    | inl none_left ↦ rw (none_left, index) (throws Error.undefined_behavior)
    | inr some_left ↦ rw (some_left, index) (returns _ tt)
  ]

  pub index-Halts : (n : ℕ) → Halts (try_draw (index platform n))
  index-Halts n = record {
    ends = λ g. Ensures->>= _ _ (index_result-Ends n g.engine) (λ (i, e) t. returns _ tt);
  }

  pub next_size-Halts : (min max : ℕ) → Halts (next_size platform min max)
  next_size-Halts min max = Halts-draw (next platform min max)

  pub generate_string_character-Halts : Halts (generate_string_character platform)
  unfolding generate_string_character
  generate_string_character-Halts = choose-Halts _

  pub if-Halts :
      {A : Type 0} (b : Bool) {m m' : Gen platform A}
      → Halts m
      → Halts m'
      → Halts (if b then m else m')
  if-Halts true h k = h
  if-Halts false h k = k

  pub if_not-Halts :
      {A : Type 0} (b : Bool) {m m' : Gen platform A}
      → Halts m
      → (b ≡ false → Halts m')
      → Halts (if b then m else m')
  if_not-Halts true h k = h
  if_not-Halts false h k = k refl
