-- ===== src/Fuzzer/GeneratorTests.antt =====
-- The generator of src/Fuzzer/TestCaseGenerator.cpp and mutators of
-- src/Fuzzer/TestCaseMutator.cpp with an engine that draws the smallest number.
use caf.Prelude.{ℕ, none, List, ◌∷◌, refl, false, [], arith}
use caf.Infrastructure.Result.{Succeeds}
use caf.Infrastructure.Random.{Platform}
use caf.Basic.CafStore.{CafStore, new_caf_store, load}
use caf.Basic.CafStore.Functions.{load-IsValid}
use caf.Fuzzer.ObjectPool.{new_object_pool}
use caf.Fuzzer.Generation.{GenState}
use caf.Fuzzer.Generator.{default_options, generate_test_case_from}
use caf.Fuzzer.Generator.Values.{HasDescendents}
use caf.Fuzzer.ObjectPool.Contents.{IsValid, new_object_pool-IsValid}
use caf.Fuzzer.Mutator.{mutate_string}
use caf.Fuzzer.Mutator.Strings.{ShortString, mutate_string-ShortString}
use caf.Fuzzer.TestCase.{FunctionCall, TestCase}
use caf.Fuzzer.Value.{Value}
use caf.Fuzzer.Mutator.Arguments.{add_argument}
use caf.Fuzzer.Mutator.Arguments.Bounds.{IsBounded, add_argument-IsBounded}
use caf.Fuzzer.Generator.Cases.{Generated, generate_test_case_from-Generated}

abbrev smallest : Platform
smallest = record {
  Engine = Unit {0};
  uniform_int = λ min max e. (min, e);
  uniform_int_range = λ min max e h. omega arith;
  uniform_int32 = λ min max e. (0, e);
  uniform_int32_pattern = λ min max e. omega arith;
  uniform_real = λ min max e. (min, e);
  less_double = λ a b. false;
  add_double = λ a b. a;
}

abbrev fs_store : CafStore
fs_store = load ((102 ∷ 115 ∷ []) ∷ (102 ∷ 115 ∷ 46 ∷ 97 ∷ []) ∷ []) new_caf_store

fs_store-HasDescendents : HasDescendents fs_store 0
unfolding load new_caf_store
fs_store-HasDescendents = record { entry = _; found = refl; some_below = omega arith }

abbrev start : GenState (Unit {0})
start = record { objects = new_object_pool; engine = tt }

generate_test_case_from-Generated_example :
    Succeeds
      (λ (t, g'). Generated default_options 0 t)
      (generate_test_case_from smallest fs_store default_options 0 start)
generate_test_case_from-Generated_example =
    generate_test_case_from-Generated smallest fs_store default_options 0 start
      (load-IsValid ((102 ∷ 115 ∷ []) ∷ (102 ∷ 115 ∷ 46 ∷ 97 ∷ []) ∷ [])) fs_store-HasDescendents
      (omega arith)

abbrev hello : List ℕ
hello = 104 ∷ 101 ∷ 108 ∷ 108 ∷ 111 ∷ []

mutate_string-ShortString_example :
    Succeeds
      (λ (v, g'). ShortString 10 v × IsValid g'.objects)
      (mutate_string smallest default_options hello start)
mutate_string-ShortString_example =
    mutate_string-ShortString smallest default_options hello start (omega arith) (omega arith)
      new_object_pool-IsValid

abbrev one_call : FunctionCall
one_call = record {
  func_id = 0;
  this = none;
  ctor = false;
  args = Value.null ∷ Value.undefined ∷ [];
}

abbrev full_call : FunctionCall
full_call = record {
  func_id = 1;
  this = none;
  ctor = false;
  args = Value.null ∷ Value.null ∷ Value.null ∷ Value.null ∷ Value.null ∷ [];
}

abbrev full_and_one : TestCase
full_and_one = record { store_root_entry_index = 0; calls = full_call ∷ one_call ∷ [] }

add_argument-IsBounded_example :
    Succeeds
      (λ (t', g'). IsBounded default_options full_and_one t')
      (add_argument smallest fs_store default_options full_and_one start)
add_argument-IsBounded_example =
    add_argument-IsBounded smallest fs_store default_options full_and_one 1 one_call start
      (load-IsValid ((102 ∷ 115 ∷ []) ∷ (102 ∷ 115 ∷ 46 ∷ 97 ∷ []) ∷ [])) fs_store-HasDescendents
      (omega arith) refl (omega arith)
