-- ===== src/Infrastructure/Result.antt =====
-- How a run of the C++ code can end. Exceptions, failed assertions and aborts are values.
use mathlib.Core.Path.{◌≡◌, refl, subst}
use mathlib.Core.Bool.{Bool, true, false}
use mathlib.Core.Logic.{◌⊎◌, inl, inr}
use mathlib.Core.Option.{Option, none, some}

pub data Error : Type 0 where
  -- `.at(i)` of a vector or a map throws std::out_of_range.
  out_of_range : Error
  -- A failed `assert`.
  assertion : Error
  -- CAF_UNREACHABLE prints a message and calls abort().
  unreachable : Error
  -- A local variable is used that nothing has written, which C++ leaves undefined.
  uninitialised : Error
  -- A null pointer is dereferenced.
  null_pointer : Error
  -- What C++ leaves undefined, such as choosing from an empty container.
  undefined_behavior : Error
  -- PRINT_ERR_AND_EXIT.
  exit_failure : Error

-- `out_of_fuel` has no counterpart in the program.
pub data Result {ℓ} (A : Type ℓ) : Type ℓ where
  ok : A → Result A
  throw : Error → Result A
  out_of_fuel : Result A

infixl 5 ◌>>=◌ ◌>>◌
abbrev pub ◌>>=◌ {ℓ κ} : {X : Type ℓ} {Y : Type κ} → Result X → (X → Result Y) → Result Y
out_of_fuel >>= next = out_of_fuel
throw e >>= next = throw e
ok x >>= next = next x

abbrev pub ◌>>◌ {κ} : {Y : Type κ} → Result (Unit {0}) → Result Y → Result Y
check >> next = check >>= λ done. next

-- `x` where it is there, and the error where it is not.
abbrev pub or_throw {ℓ} : {A : Type ℓ} → Error → Option A → Result A
or_throw e (some a) = ok a
or_throw e none = throw e

abbrev pub require : Error → Bool → Result (Unit {0})
require e true = ok tt
require e false = throw e

-- The run stayed within its fuel.
abbrev pub Ends {ℓ} : {A : Type ℓ} → Result A → Type 0
Ends (ok a) = Unit {0}
Ends (throw e) = Unit {0}
Ends out_of_fuel = ⊥

-- Where a chain returns, its first step does.
pub >>=-eq-ok {ℓ κ} :
    {X : Type ℓ} {Y : Type κ} {y : Y} (r : Result X) (next : X → Result Y)
    → (r >>= next) ≡ ok y
    → (x : X) × (r ≡ ok x) × (next x ≡ ok y)
>>=-eq-ok out_of_fuel next h = cc
>>=-eq-ok (throw e) next h = cc
>>=-eq-ok (ok x) next h = (x, refl, h)

pub or_throw-eq-ok {ℓ} :
    {A : Type ℓ} (e : Error) (o : Option A) {a : A} → or_throw e o ≡ ok a → o ≡ some a
or_throw-eq-ok e (some a) h = cc
or_throw-eq-ok e none h = cc

pub Result-cases {ℓ} :
    {A : Type ℓ} (r : Result A) → Ends r → ((a : A) × (r ≡ ok a)) ⊎ ((e : Error) × (r ≡ throw e))
Result-cases (ok a) h = inl (a, refl)
Result-cases (throw e) h = inr (e, refl)
Result-cases out_of_fuel h = absurd h

-- A run that throws or returns a value of which `P` holds, and does not run out of fuel.
pub data Ensures {ℓ κ} {A : Type ℓ} (P : A → Type κ) : Result A → Type (ℓ ⊔ κ) where
  returns : (a : A) → P a → Ensures P (ok a)
  throws : (e : Error) → Ensures P (throw e)

module _ {ℓ κ} {A : Type ℓ} (P : A → Type κ) where
  pub Ensures-imp {κ'} :
      (Q : A → Type κ') {r : Result A} → Ensures P r → ((a : A) → P a → Q a) → Ensures Q r
  Ensures-imp Q (returns a h) k = returns a (k a h)
  Ensures-imp Q (throws e) k = throws e

  pub Ensures-or_throw :
      (e : Error) (o : Option A) → ((a : A) → o ≡ some a → P a) → Ensures P (or_throw e o)
  Ensures-or_throw e none h = throws e
  Ensures-or_throw e (some a) h = returns a (h a refl)

  pub Ensures-Ends : {r : Result A} → Ensures P r → Ends r
  Ensures-Ends (returns a h) = tt
  Ensures-Ends (throws e) = tt

  pub Ensures-ok : {a : A} {m : Result A} → m ≡ ok a → Ensures P m → P a
  Ensures-ok e (throws err) = cc
  Ensures-ok e (returns b holds_b) = subst P (cc) holds_b

  pub Ensures->>= {ℓ' κ'} :
      {B : Type ℓ'} (Q : B → Type κ') {r : Result A} {f : A → Result B}
      → Ensures P r
      → ((a : A) → P a → Ensures Q (f a))
      → Ensures Q (r >>= f)
  Ensures->>= Q (returns a h) k = k a h
  Ensures->>= Q (throws e) k = throws e

-- A run that returns a value of which `P` holds.
pub data Succeeds {ℓ κ} {A : Type ℓ} (P : A → Type κ) : Result A → Type (ℓ ⊔ κ) where
  returns_ok : (a : A) → P a → Succeeds P (ok a)

module _ {ℓ κ} {A : Type ℓ} (P : A → Type κ) where
  pub Succeeds->>= {ℓ' κ'} :
      {B : Type ℓ'} (Q : B → Type κ') {r : Result A} {f : A → Result B}
      → Succeeds P r
      → ((a : A) → P a → Succeeds Q (f a))
      → Succeeds Q (r >>= f)
  Succeeds->>= Q (returns_ok a h) k = k a h

  pub Succeeds-imp {κ'} :
      (Q : A → Type κ') {r : Result A} → Succeeds P r → ((a : A) → P a → Q a) → Succeeds Q r
  Succeeds-imp Q (returns_ok a h) k = returns_ok a (k a h)

  pub Succeeds-ok : {r : Result A} → Succeeds P r → (a : A) × (r ≡ ok a) × P a
  Succeeds-ok (returns_ok a h) = (a, refl, h)

  -- As Succeeds->>=, where the rest depends on what was returned.
  pub Succeeds->>=_returned {ℓ' κ'} :
      {B : Type ℓ'} (Q : B → Type κ') {r : Result A} {f : A → Result B}
      → Succeeds P r
      → ((a : A) → r ≡ ok a → P a → Succeeds Q (f a))
      → Succeeds Q (r >>= f)
  Succeeds->>=_returned Q (returns_ok a h) k = k a refl h
