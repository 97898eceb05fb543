-- ===== src/Fuzzer/Mutator/Arguments.antt =====
-- src/Fuzzer/TestCaseMutator.cpp: how constructor calls and the number of arguments are mutated.
pub mod Bounds
use caf.Prelude.{ℕ, suc, ◌-◌, Bool, not, List, [], ◌∷◌, length, ltb, map, if◌then◌else◌}
use caf.Infrastructure.Result.{assertion}
use caf.Infrastructure.Random.{Platform}
use caf.Basic.CafStore.{CafStore}
use caf.Fuzzer.TestCase.{
  FunctionCall, TestCase, set_constructor_call, push_arg, remove_arg, get_function_call,
  set_function_call, function_calls_count, last_index,
}
use caf.Fuzzer.Generation.{◌>>=◌, fail, lift}
use caf.Fuzzer.Generator.{Gen, Options, next_size, choose, generate_value}

-- The indexes of the calls that pass a test, in order.
abbrev pub candidates : (FunctionCall → Bool) → List FunctionCall → List ℕ
candidates test [] = []
candidates test (call ∷ calls) =
    let rest = map suc (candidates test calls) in if test call then 0 ∷ rest else rest

abbrev pub takes_argument : Options → FunctionCall → Bool
takes_argument opt call = ltb (length call.args) opt.max_arguments

abbrev pub has_argument : FunctionCall → Bool
has_argument call = ltb 0 (length call.args)

module _ (platform : Platform) where
  unfoldable pub mutate_ctor : TestCase → Gen platform TestCase
  unfolding function_calls_count get_function_call set_function_call set_constructor_call
  mutate_ctor t = do
    i ← next_size platform 0 (last_index (function_calls_count t))
    call ← lift (get_function_call i t)
    lift (set_function_call i (set_constructor_call (not call.ctor) call) t)

  -- The assertion that there is a candidate, and the choice of one.
  abbrev pub choose_call : List ℕ → Gen platform ℕ
  choose_call [] = fail assertion
  choose_call (i ∷ is) = choose platform (i ∷ is)

  unfoldable pub add_argument : CafStore → Options → TestCase → Gen platform TestCase
  unfolding get_function_call generate_value set_function_call push_arg
  add_argument store opt t = do
    i ← choose_call (candidates (takes_argument opt) t.calls)
    call ← lift (get_function_call i t)
    v ← generate_value platform store opt t.store_root_entry_index i
    lift (set_function_call i (push_arg v call) t)

  unfoldable pub remove_argument : TestCase → Gen platform TestCase
  unfolding get_function_call set_function_call remove_arg
  remove_argument t = do
    i ← choose_call (candidates has_argument t.calls)
    call ← lift (get_function_call i t)
    j ← next_size platform 0 (length call.args - 1)
    call' ← lift (remove_arg j call)
    lift (set_function_call i call' t)
