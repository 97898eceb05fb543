-- ===== src/Fuzzer/Generation.antt =====
-- What the generator and the mutator change: the object pool and the random number engine that
-- TestCaseGenerator and TestCaseMutator hold by reference, and how their steps follow one another.
use caf.Infrastructure.Result
use caf.Infrastructure.Result.{Result, Error, ok, throw, or_throw}
use caf.Fuzzer.Value.{Value, Arrays}
use caf.Fuzzer.ObjectPool.{ObjectPool}

pub record GenState (S : Type 0) : Type 0 where
  pub objects : ObjectPool
  pub engine : S

abbrev pub M : Type 0 → Type 0 → Type 0
M S A = GenState S → Result (A × GenState S)

module _ {S : Type 0} where
  infixl 5 ◌>>=◌ ◌>>◌
  abbrev pub ◌>>=◌ : {A B : Type 0} → M S A → (A → M S B) → M S B
  ◌>>=◌ m f g = Result.◌>>=◌ (m g) (λ (a, g'). f a g')

  abbrev pub ◌>>◌ : {B : Type 0} → M S (Unit {0}) → M S B → M S B
  ◌>>◌ m k = m >>= λ _. k

  abbrev pub pure : {A : Type 0} → A → M S A
  pure a g = ok (a, g)

  abbrev pub fail : {A : Type 0} → Error → M S A
  fail e g = throw e

  abbrev pub lift : {A : Type 0} → Result A → M S A
  lift r g = Result.◌>>=◌ r (λ a. ok (a, g))

  -- A draw from the engine.
  abbrev pub draw : {A : Type 0} → (S → A × S) → M S A
  draw f g = let (a, e) = f g.engine in ok (a, record g { engine = e })

  abbrev pub try_draw : {A : Type 0} → (S → Result (A × S)) → M S A
  try_draw f g = Result.◌>>=◌ (f g.engine) (λ (a, e). ok (a, record g { engine = e }))

  -- A call of the pool.
  abbrev pub from_pool : (ObjectPool → Value × ObjectPool) → M S Value
  from_pool f g = let (v, p) = f g.objects in ok (v, record g { objects = p })

  -- A call of the pool that may throw.
  abbrev pub try_pool : (ObjectPool → Result (Value × ObjectPool)) → M S Value
  try_pool f g = Result.◌>>=◌ (f g.objects) (λ (v, p). ok (v, record g { objects = p }))

  abbrev pub arrays : M S Arrays
  arrays g = ok (g.objects.array_values, g)

  abbrev pub set_arrays : Arrays → M S (Unit {0})
  set_arrays heap g = ok (tt, record g { objects = record (g.objects) { array_values = heap } })
