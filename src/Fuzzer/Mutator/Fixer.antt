-- ===== src/Fuzzer/Mutator/Fixer.antt =====
-- PlaceholderFixer of src/Fuzzer/TestCaseMutator.cpp: the placeholders of a test case are replaced
-- where they stand, those inside arrays in place. `_fixedValues` is the list of the arrays that have
-- been gone through.
pub mod Once
pub mod Steps
pub mod Ready
pub mod Traversal
pub mod Whole
use caf.Prelude.{
  ℕ, zero, suc, ◌+◌, Bool, true, false, ◌||◌, Option, none, some, List, [], ◌∷◌, ◌++◌, length, take,
  drop, ◌==◌,
}
use caf.Infrastructure.Result.{out_of_fuel, null_pointer, or_throw}
use caf.Fuzzer.Value.{Value, elements, get_element, set_element}
use caf.Fuzzer.TestCase.{FunctionCall, TestCase}
use caf.Fuzzer.Generation.{M, ◌>>=◌, ◌>>◌, pure, lift, arrays, set_arrays}

abbrev pub member : ℕ → List ℕ → Bool
member a [] = false
member a (b ∷ bs) = b == a || member a bs

-- What stands in for a placeholder, by the call that holds it and its index.
abbrev pub Fixer : Type 0 → Type 0
Fixer S = ℕ → ℕ → M S Value

-- A call returns the new value and the arrays that have been gone through.
abbrev pub Fix : Type 0 → Type 0
Fix S = Value → List ℕ → M S (Value × List ℕ)

module _ {S : Type 0} where
  -- The loop over an array: `n` elements are left from the one of index `i` on.
  unfoldable pub fix_elements : Fix S → ℕ → ℕ → ℕ → List ℕ → M S (List ℕ)
  unfolding get_element set_element
  fix_elements fix a i zero fixed = pure fixed
  fix_elements fix a i (suc n) fixed = do
    heap ← arrays
    v ← lift (get_element a i heap)
    fix v fixed >>= λ (w, fixed'). do
      heap' ← arrays
      heap'' ← lift (set_element a i w heap')
      set_arrays heap''
      fix_elements fix a (i + 1) n fixed'

  unfoldable pub fix_array : Fix S → ℕ → List ℕ → M S (Value × List ℕ)
  unfolding fix_elements
  fix_array fix a fixed = do
    heap ← arrays
    xs ← lift (or_throw null_pointer (elements heap a))
    fixed' ← fix_elements fix a 0 (length xs) (a ∷ fixed)
    pure (Value.array a, fixed')

  -- FixValue; each level of nested arrays costs a unit of fuel.
  unfoldable pub fix_value : ℕ → Fixer S → ℕ → Fix S
  unfolding fix_array
  fix_value zero fixer call v fixed = λ g. out_of_fuel
  fix_value (suc f) fixer call (Value.placeholder j) fixed = fixer call j >>= λ w. pure (w, fixed)
  fix_value (suc f) fixer call (Value.array a) fixed = elim (member a fixed) [
    | true ↦ pure (Value.array a, fixed)
    | false ↦ fix_array (fix_value f fixer call) a fixed
  ]
  fix_value (suc f) fixer call v fixed = pure (v, fixed)

  unfoldable pub fix_args : Fix S → List Value → List ℕ → M S (List Value × List ℕ)
  fix_args fix [] fixed = pure ([], fixed)
  fix_args fix (v ∷ vs) fixed = fix v fixed >>= λ (w, fixed').
      fix_args fix vs fixed' >>= λ (ws, fixed''). pure (w ∷ ws, fixed'')

  unfoldable pub fix_this : Fix S → Option Value → List ℕ → M S (Option Value × List ℕ)
  fix_this fix none fixed = pure (none, fixed)
  fix_this fix (some v) fixed = fix v fixed >>= λ (w, fixed'). pure (some w, fixed')

  unfoldable pub fix_call : Fix S → FunctionCall → List ℕ → M S (FunctionCall × List ℕ)
  unfolding fix_this fix_args
  fix_call fix call fixed = fix_this fix call.this fixed >>= λ (this, fixed').
      fix_args fix call.args fixed' >>= λ (args, fixed'').
      pure (record call { this = this; args = args }, fixed'')

  -- The loop over the calls from the one of index `i` on.
  unfoldable pub fix_calls : ℕ → Fixer S → ℕ → List FunctionCall → List ℕ → M S (List FunctionCall)
  unfolding fix_call fix_value
  fix_calls f fixer i [] fixed = pure []
  fix_calls f fixer i (call ∷ calls) fixed =
      fix_call (fix_value f fixer i) call fixed >>= λ (call', fixed').
      fix_calls f fixer (i + 1) calls fixed' >>= λ calls'. pure (call' ∷ calls')

  -- Fix: an array is gone through only once, so there are no more levels than arrays.
  unfoldable pub fix : TestCase → ℕ → Fixer S → M S TestCase
  unfolding fix_calls
  fix t start fixer = do
    heap ← arrays
    calls ← fix_calls (suc (length heap)) fixer start (drop start t.calls) []
    pure (record t { calls = take start t.calls ++ calls })
