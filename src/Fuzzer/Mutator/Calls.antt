-- ===== src/Fuzzer/Mutator/Calls.antt =====
-- src/Fuzzer/TestCaseMutator.cpp: how calls are added and removed, how what a call is given is
-- mutated, and the choice among all mutators of a test case.
pub mod Inserted
pub mod Shift
pub mod Adding
use caf.Prelude.{
  ℕ, ◌+◌, ◌-◌, none, some, List, [], ◌∷◌, ◌++◌, length, leb, ltb, ◌==◌, Bool, if◌then◌else◌,
}
use caf.Infrastructure.Result.{assertion}
use caf.Infrastructure.Random.{Platform}
use caf.Basic.CafStore.{CafStore}
use caf.Fuzzer.Value.{Value}
use caf.Fuzzer.TestCase.{
  FunctionCall, TestCase, set_this, get_arg, set_arg, function_calls_count, last_index,
  get_function_call, set_function_call, insert_function_call, remove_function_call,
}
use caf.Fuzzer.ObjectPool.{get_placeholder_value}
use caf.Fuzzer.Generation.{try_pool, ◌>>=◌, fail, lift, from_pool}
use caf.Fuzzer.Generator.{Gen, Options, next_size, choose, generate_value, generate_function_call}
use caf.Fuzzer.Mutator.Arguments.{
  candidates, takes_argument, has_argument, choose_call, mutate_ctor, add_argument, remove_argument,
}
use caf.Fuzzer.Mutator.Fixer.{fix}
use caf.Fuzzer.Mutator.Values.{mutate_value}

pub data TestCaseMutation : Type 0 where
  adding_call removing_call changing_this changing_ctor : TestCaseMutation
  adding_argument removing_argument changing_argument : TestCaseMutation

-- A call at `index` or later is one further on when a call is inserted there.
abbrev pub index_after_insert : ℕ → ℕ → ℕ
index_after_insert index j = if leb index j then j + 1 else j

module _ (platform : Platform) where
  unfoldable pub add_function_call : CafStore → Options → TestCase → Gen platform TestCase
  unfolding function_calls_count generate_function_call insert_function_call fix
      get_placeholder_value
  add_function_call store opt t = do
    index ← next_size platform 0 (function_calls_count t)
    call ← generate_function_call platform store opt index t.store_root_entry_index
    t' ← lift (insert_function_call index call t)
    fix t' (index + 1) (λ i j. try_pool (get_placeholder_value (index_after_insert index j)))

  -- A reference to the call that is gone becomes a new value.
  unfoldable pub replace_removed : CafStore → Options → ℕ → ℕ → ℕ → ℕ → Gen platform Value
  unfolding generate_value get_placeholder_value
  replace_removed store opt root index i j =
      if j == index
      then generate_value platform store opt root i
      else try_pool (get_placeholder_value (if ltb index j then j - 1 else j))

  unfoldable pub remove_function_call_at_random :
      CafStore → Options → TestCase → Gen platform TestCase
  unfolding function_calls_count remove_function_call fix replace_removed
  remove_function_call_at_random store opt t = do
    index ← next_size platform 0 (last_index (function_calls_count t))
    t' ← lift (remove_function_call index t)
    fix t' index (λ i j. replace_removed store opt t'.store_root_entry_index index i j)

  unfoldable pub mutate_this_of : CafStore → Options → ℕ → ℕ → FunctionCall → Gen platform Value
  unfolding mutate_value generate_value
  mutate_this_of store opt root i call = elim call.this [
    | some v ↦ mutate_value platform store opt root i v
    | none ↦ generate_value platform store opt root i
  ]

  unfoldable pub mutate_this : CafStore → Options → TestCase → Gen platform TestCase
  unfolding function_calls_count get_function_call mutate_this_of set_this set_function_call
  mutate_this store opt t = do
    i ← next_size platform 0 (last_index (function_calls_count t))
    call ← lift (get_function_call i t)
    v ← mutate_this_of store opt t.store_root_entry_index i call
    lift (set_function_call i (set_this v call) t)

  unfoldable pub mutate_argument : CafStore → Options → TestCase → Gen platform TestCase
  unfolding get_function_call get_arg mutate_value set_arg set_function_call
  mutate_argument store opt t = do
    i ← choose_call platform (candidates has_argument t.calls)
    call ← lift (get_function_call i t)
    j ← next_size platform 0 (length call.args - 1)
    old ← lift (get_arg j call)
    v ← mutate_value platform store opt t.store_root_entry_index i old
    call' ← lift (set_arg j v call)
    lift (set_function_call i call' t)

  -- Those that can mutate the test case, in the order of the array of mutators.
  abbrev pub offer : Bool → TestCaseMutation → List TestCaseMutation
  offer b m = if b then m ∷ [] else []

  abbrev pub test_case_mutations : Options → TestCase → List TestCaseMutation
  test_case_mutations opt t =
      offer (ltb (length t.calls) opt.max_calls) TestCaseMutation.adding_call
      ++ (offer (ltb 1 (length t.calls)) TestCaseMutation.removing_call
          ++ (TestCaseMutation.changing_this ∷ TestCaseMutation.changing_ctor ∷ []
              ++ (offer (ltb 0 (length (candidates (takes_argument opt) t.calls)))
                    TestCaseMutation.adding_argument
                  ++ (offer (ltb 0 (length (candidates has_argument t.calls)))
                        TestCaseMutation.removing_argument
                      ++ offer (ltb 0 (length (candidates has_argument t.calls)))
                          TestCaseMutation.changing_argument))))

  unfoldable pub apply_mutation :
      CafStore → Options → TestCaseMutation → TestCase → Gen platform TestCase
  unfolding add_function_call remove_function_call_at_random mutate_this mutate_ctor add_argument
      remove_argument mutate_argument
  apply_mutation store opt TestCaseMutation.adding_call t = add_function_call store opt t
  apply_mutation store opt TestCaseMutation.removing_call t =
      remove_function_call_at_random store opt t
  apply_mutation store opt TestCaseMutation.changing_this t = mutate_this store opt t
  apply_mutation store opt TestCaseMutation.changing_ctor t = mutate_ctor platform t
  apply_mutation store opt TestCaseMutation.adding_argument t = add_argument platform store opt t
  apply_mutation store opt TestCaseMutation.removing_argument t = remove_argument platform t
  apply_mutation store opt TestCaseMutation.changing_argument t = mutate_argument store opt t

  -- Mutate.
  unfoldable pub mutate : CafStore → Options → TestCase → Gen platform TestCase
  unfolding apply_mutation
  mutate store opt t = do
    m ← choose platform (test_case_mutations opt t)
    apply_mutation store opt m t
