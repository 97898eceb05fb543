-- ===== src/Fuzzer/Scope.antt =====
-- Which calls a test case may refer to: a value of a call names return values of earlier calls only,
-- and arrays that exist.
pub mod Levels
pub mod Serialized
use caf.Prelude.{ℕ, ◌+◌, ◌≤◌, ◌<◌, ◌≡◌, List, [], ◌∷◌, length, some, All}
use caf.Fuzzer.Value.{Value, Arrays, elements}
use caf.Fuzzer.TestCase.{FunctionCall, TestCase}
use caf.Fuzzer.Serializer.{this_or_undefined}

-- `level a` bounds the calls that the array `a`, and what it reaches, refers to; `n` is the number
-- of arrays, and `i` the call that the value belongs to.
abbrev pub InScope : (ℕ → ℕ) → ℕ → ℕ → Value → Type 0
InScope level n i (Value.placeholder j) = j < i
InScope level n i (Value.array a) = (a < n) × (level a ≤ i)
InScope level n i v = Unit {0}

abbrev pub CallInScope : (ℕ → ℕ) → ℕ → ℕ → FunctionCall → Type 0
CallInScope level n i call =
    InScope level n i (this_or_undefined call) × All (InScope level n i) call.args

-- The calls from the one of index `i` on.
abbrev pub CallsInScope : (ℕ → ℕ) → ℕ → ℕ → List FunctionCall → Type 0
CallsInScope level n i [] = Unit {0}
CallsInScope level n i (call ∷ calls) =
    CallInScope level n i call × CallsInScope level n (i + 1) calls

abbrev pub ArraysInScope : (ℕ → ℕ) → Arrays → Type 0
ArraysInScope level heap =
    (a : ℕ) (xs : List Value)
    → elements heap a ≡ some xs
    → All (InScope level (length heap) (level a)) xs

pub record IsScoped (level : ℕ → ℕ) (heap : Arrays) (t : TestCase) : Type 0 where
  pub arrays : ArraysInScope level heap
  pub calls : CallsInScope level (length heap) 0 t.calls
