-- ===== src/Fuzzer/Generator/Runs.antt =====
-- Runs of src/Fuzzer/TestCaseGenerator.cpp that return, from whatever state.
use caf.Prelude.{
  refl, ◌∙◌, ℕ, ◌-◌, ◌≤◌, ◌<◌, ◌≡◌, false, List, length, get_elem?_total, All, All-get_elem?, arith,
  ◌==◌,
}
use caf.Infrastructure.Result.{Result, Succeeds, returns_ok, Succeeds->>=, Succeeds-imp}
use caf.Infrastructure.Random.{Platform, index, select, next}
use caf.Fuzzer.Value.{Value, Arrays}
use caf.Fuzzer.ObjectPool.{ObjectPool}
use caf.Fuzzer.Generation.{GenState, M, ◌>>=◌, pure, lift, draw, from_pool, arrays, set_arrays}
use caf.Fuzzer.Generator.{chance, next_size, choose}

-- From each state the run returns a value of which `P` holds.
abbrev pub Runs {ℓ} : {S A : Type 0} → (A → Type ℓ) → M S A → Type ℓ
Runs {S = S} P m = (g : GenState S) → Succeeds (λ (a, g'). P a) (m g)

module _ {S A B : Type 0} where
  pub Runs->>= {ℓ κ} :
      (P : A → Type ℓ) (Q : B → Type κ) {m : M S A} {f : A → M S B}
      → Runs P m
      → ((a : A) → P a → Runs Q (f a))
      → Runs Q (m >>= f)
  Runs->>= P Q h k g = Succeeds->>= _ _ (h g) (λ (a, g') p. k a p g')

module _ {S A : Type 0} where
  pub Runs-imp {ℓ κ} :
      (P : A → Type ℓ) (Q : A → Type κ) {m : M S A} → Runs P m → ((a : A) → P a → Q a) → Runs Q m
  Runs-imp P Q h k g = Succeeds-imp _ _ (h g) (λ (a, g') p. k a p)

  pub Runs-pure {ℓ} : (P : A → Type ℓ) (a : A) → P a → Runs {S = S} P (pure a)
  Runs-pure P a h g = returns_ok (a, g) h

  pub Runs-lift {ℓ} : (P : A → Type ℓ) {r : Result A} → Succeeds P r → Runs {S = S} P (lift r)
  Runs-lift P h g = Succeeds->>= P _ h (λ a p. returns_ok (a, g) p)

abbrev pub Any : {A : Type 0} → A → Type 0
Any a = Unit {0}

module _ {S : Type 0} where
  pub Runs-draw : {A : Type 0} (f : S → A × S) → Runs {S = S} {A = A} Any (draw f)
  Runs-draw f g = returns_ok _ tt

  pub Runs-arrays : Runs {S = S} Any arrays
  Runs-arrays g = returns_ok _ tt

  pub Runs-set_arrays : (heap : Arrays) → Runs {S = S} Any (set_arrays heap)
  Runs-set_arrays heap g = returns_ok _ tt

  pub Runs-from_pool : (f : ObjectPool → Value × ObjectPool) → Runs {S = S} Any (from_pool f)
  Runs-from_pool f g = returns_ok _ tt

-- From each state the run returns a value of which `P` holds, and leaves the pool alone.
abbrev pub Draws {ℓ} : {S A : Type 0} → (A → Type ℓ) → M S A → Type ℓ
Draws {S = S} P m = (g : GenState S) → Succeeds (λ (a, g'). P a × (g'.objects ≡ g.objects)) (m g)

module _ {S A B : Type 0} where
  pub Draws->>= {ℓ κ} :
      (P : A → Type ℓ) (Q : B → Type κ) {m : M S A} {f : A → M S B}
      → Draws P m
      → ((a : A) → P a → Draws Q (f a))
      → Draws Q (m >>= f)
  Draws->>= P Q h k g =
      Succeeds->>= _ _ (h g)
        λ (a, g') (p, same). Succeeds-imp _ _ (k a p g') (λ (b, g'') (q, same'). (q, same' ∙ same))

module _ {S A : Type 0} where
  pub Draws-Runs {ℓ} : (P : A → Type ℓ) {m : M S A} → Draws P m → Runs P m
  Draws-Runs P h g = Succeeds-imp _ _ (h g) (λ (a, g') (p, same). p)

  pub Draws-pure {ℓ} : (P : A → Type ℓ) (a : A) → P a → Draws {S = S} P (pure a)
  Draws-pure P a h g = returns_ok (a, g) (h, refl)

  pub Draws-lift {ℓ} : (P : A → Type ℓ) {r : Result A} → Succeeds P r → Draws {S = S} P (lift r)
  Draws-lift P h g = Succeeds->>= P _ h (λ a p. returns_ok (a, g) (p, refl))

  pub Draws-draw : (f : S → A × S) → Draws {S = S} {A = A} Any (draw f)
  Draws-draw f g = returns_ok _ (tt, refl)

-- The draws.
module _ (platform : Platform) where
  pub Runs-chance : (p : ℕ) → Runs Any (chance platform p)
  Runs-chance p g = returns_ok _ tt

  pub Draws-next_size :
      (min max : ℕ) → min ≤ max → Draws (λ n. (min ≤ n) × (n ≤ max)) (next_size platform min max)
  unfolding next
  Draws-next_size min max h g = returns_ok _ (platform.uniform_int_range min max g.engine h, refl)

  pub Runs-next_size :
      (min max : ℕ) → min ≤ max → Runs (λ n. (min ≤ n) × (n ≤ max)) (next_size platform min max)
  Runs-next_size min max h = Draws-Runs _ (Draws-next_size min max h)

  pub select-Succeeds {ℓ} :
      {A : Type 0} (P : A → Type ℓ) (xs : List A) (e : platform.Engine)
      → 0 < length xs
      → All P xs
      → Succeeds (λ (x, e'). P x) (select platform xs e)
  unfolding select index next
  select-Succeeds P xs e h all =
      let (min_le, le_max) = platform.uniform_int_range 0 (length xs - 1) e (omega arith) in
      let i = (platform.uniform_int 0 (length xs - 1) e).0 in
      let (x, at_i) = get_elem?_total xs i (omega (arith, h, le_max)) in
      let some_left : (length xs == 0) ≡ false = ground arith in
      rw (some_left, select, at_i) (returns_ok _ (All-get_elem? P xs i x all at_i))

  pub Draws-choose {ℓ} :
      {A : Type 0} (P : A → Type ℓ) (xs : List A)
      → 0 < length xs
      → All P xs
      → Draws P (choose platform xs)
  Draws-choose P xs h all g =
      Succeeds->>= _ _ (select-Succeeds P xs g.engine h all) (λ (x, e) p. returns_ok _ (p, refl))

  pub Runs-choose {ℓ} :
      {A : Type 0} (P : A → Type ℓ) (xs : List A)
      → 0 < length xs
      → All P xs
      → Runs P (choose platform xs)
  Runs-choose P xs h all = Draws-Runs P (Draws-choose P xs h all)
