-- ===== src/Fuzzer/MutatorTests.antt =====
-- The placeholder fixer and the mutators of src/Fuzzer/TestCaseMutator.cpp on concrete inputs.
use caf.Prelude.{
  List, false, ℕ, zero, suc, ◌≡◌, none, some, [], ◌∷◌, refl, subst, arith, All, some-injective,
}
use caf.Infrastructure.Result.{Succeeds, Ends, ok}
use caf.Infrastructure.Stream.{Bytes}
use caf.Infrastructure.Random.{Platform}
use caf.Basic.CafStore.{CafStore, new_caf_store, load}
use caf.Basic.CafStore.Functions.{load-IsValid}
use caf.Fuzzer.Value.{Value, Arrays}
use caf.Fuzzer.TestCase.{FunctionCall, TestCase}
use caf.Fuzzer.ObjectPool.{new_object_pool, get_placeholder_value}
use caf.Fuzzer.ObjectPool.Contents.{new_object_pool-IsValid}
use caf.Fuzzer.ObjectPool.Leaves.{IsSound, new_object_pool-IsLeafPool, with_arrays-IsSound}
use caf.Fuzzer.Scope.{IsScoped, ArraysInScope, InScope}
use caf.Fuzzer.Scope.Serialized.{generate_test_case_from-serialize}
use caf.Fuzzer.Serializer.{serialize}
use caf.Fuzzer.AflExport.{afl_custom_mutator}
use caf.Fuzzer.Generation.{try_pool, GenState}
use caf.Fuzzer.Generator.{default_options, generate_test_case_from}
use caf.Fuzzer.Generator.Values.{HasDescendents}
use caf.Fuzzer.Generator.Scoped.{InLevel}
use caf.Fuzzer.Generator.Scoped.Calls.{generate_test_case_from-IsScoped}
use caf.Fuzzer.Mutator.Fixer.{fix}
use caf.Fuzzer.Mutator.Fixer.Ready.{IsReady}
use caf.Fuzzer.Mutator.Fixer.Whole.{IsFixed, fix-IsFixed}
use caf.Fuzzer.Mutator.{swap}
use caf.Fuzzer.Mutator.Values.{mutate_value, exchanged}
use caf.Fuzzer.Mutator.Values.Exchange.{exchanged-swap}
use caf.Fuzzer.Mutator.Values.Termination.{mutate_value-Ends}
use caf.Fuzzer.Mutator.Calls.{index_after_insert}
use caf.Fuzzer.Mutator.Calls.Shift.{ArraysInScope-IsClosed}

-- An engine that always draws the least number.
abbrev least : Platform
least = record {
  Engine = Unit {0};
  uniform_int = λ min max e. (min, e);
  uniform_int_range = λ min max e h. omega arith;
  uniform_int32 = λ min max e. (0, e);
  uniform_int32_pattern = λ min max e. omega arith;
  uniform_real = λ min max e. (min, e);
  less_double = λ a b. false;
  add_double = λ a b. a;
}

abbrev vm_store : CafStore
vm_store = load ((118 ∷ 109 ∷ []) ∷ (118 ∷ 109 ∷ 46 ∷ 114 ∷ []) ∷ []) new_caf_store

vm_store-HasDescendents : HasDescendents vm_store 0
unfolding load new_caf_store
vm_store-HasDescendents = record { entry = _; found = refl; some_below = omega arith }

-- An array that holds itself, and a placeholder for the first call.
abbrev cyclic : Arrays
cyclic = (Value.placeholder 0 ∷ Value.array 0 ∷ []) ∷ []

abbrev level_one : ℕ → ℕ
level_one a = 1

cyclic-ArraysInScope : ArraysInScope level_one cyclic
cyclic-ArraysInScope zero xs e =
    subst (All (InScope level_one 1 1)) (some-injective _ _ e)
      (omega arith, ((omega arith, omega arith), tt))
cyclic-ArraysInScope (suc a) xs e = absurd (cc e)

abbrev opening : FunctionCall
opening = record { func_id = 0; this = none; ctor = false; args = [] }

abbrev following : FunctionCall
following = record {
  func_id = 0;
  this = some (Value.array 0);
  ctor = false;
  args = Value.array 0 ∷ Value.placeholder 0 ∷ [];
}

abbrev two_calls : TestCase
two_calls = record { store_root_entry_index = 0; calls = opening ∷ following ∷ [] }

abbrev with_cycle : GenState (Unit {0})
with_cycle = record { objects = record new_object_pool { array_values = cyclic }; engine = tt }

with_cycle-IsSound : IsSound with_cycle.objects
with_cycle-IsSound =
    with_arrays-IsSound new_object_pool cyclic
      (record { valid = new_object_pool-IsValid; leaves = new_object_pool-IsLeafPool })

with_cycle-IsReady : IsReady (index_after_insert 0) 1 with_cycle
unfolding new_object_pool
with_cycle-IsReady = record {
  sound = with_cycle-IsSound;
  count = refl;
  closed = ArraysInScope-IsClosed level_one cyclic cyclic-ArraysInScope;
}

fix-IsFixed_example :
    Succeeds
      (λ (t', g'). IsFixed (index_after_insert 0) 1 two_calls cyclic t' g')
      (fix two_calls 1
        (λ i j. try_pool (get_placeholder_value (index_after_insert 0 j)))
        with_cycle)
fix-IsFixed_example =
    fix-IsFixed (index_after_insert 0) two_calls 1 with_cycle with_cycle-IsReady
      ((omega arith, (omega arith, (tt, tt))), tt)

-- The cycle is gone through once, and the placeholders name the next call.
fix-cyclic :
    (g : GenState (Unit {0})) × (fix two_calls 1
        (λ i j. try_pool (get_placeholder_value (index_after_insert 0 j)))
        with_cycle
      ≡ ok (
        record two_calls {
          calls =
              opening ∷ record following { args = Value.array 0 ∷ Value.placeholder 1 ∷ [] } ∷ [];
        },
        g,
      ))
    × (g.objects.array_values ≡ (Value.placeholder 1 ∷ Value.array 0 ∷ []) ∷ [])
unfolding fix get_placeholder_value new_object_pool
fix-cyclic = (_, refl, refl)

fresh-InLevel : InLevel (λ a. 0) 0 new_object_pool
unfolding new_object_pool
fresh-InLevel = record {
  valid = new_object_pool-IsValid;
  leaves = new_object_pool-IsLeafPool;
  in_scope = λ a xs e. absurd (cc e);
  next_level = λ a le. refl;
}

abbrev fresh : GenState (Unit {0})
fresh = record { objects = new_object_pool; engine = tt }

generate_test_case_from-IsScoped_example :
    Succeeds
      (λ (t, g'). (level' : ℕ → ℕ) × IsScoped level' g'.objects.array_values t)
      (generate_test_case_from least vm_store default_options 0 fresh)
generate_test_case_from-IsScoped_example =
    generate_test_case_from-IsScoped least vm_store default_options 0
      (load-IsValid ((118 ∷ 109 ∷ []) ∷ (118 ∷ 109 ∷ 46 ∷ 114 ∷ []) ∷ [])) vm_store-HasDescendents
      (λ a. 0) fresh fresh-InLevel (omega arith)

generate_test_case_from-serialize_example :
    Succeeds
      (λ (t, g'). (bs : Bytes) × (serialize g'.objects.array_values t ≡ ok bs))
      (generate_test_case_from least vm_store default_options 0 fresh)
generate_test_case_from-serialize_example =
    generate_test_case_from-serialize least vm_store default_options 0 (λ a. 0) fresh
      (load-IsValid ((118 ∷ 109 ∷ []) ∷ (118 ∷ 109 ∷ 46 ∷ 114 ∷ []) ∷ [])) vm_store-HasDescendents
      fresh-InLevel (omega arith)

mutate_value-Ends_example :
    Ends (mutate_value least vm_store default_options 0 1 (Value.array 0) with_cycle)
mutate_value-Ends_example =
    mutate_value-Ends least vm_store default_options 0
      (load-IsValid ((118 ∷ 109 ∷ []) ∷ (118 ∷ 109 ∷ 46 ∷ 114 ∷ []) ∷ [])) vm_store-HasDescendents 1
      (Value.array 0) with_cycle

-- The empty test case has no call that could be changed, but a call can be added to it.
afl_custom_mutator_adds :
    (bs : Bytes) × (afl_custom_mutator least vm_store tt (0 ∷ 0 ∷ 0 ∷ 0 ∷ 0 ∷ 0 ∷ 0 ∷ 0 ∷ []) 100
      ≡ ok bs)
unfolding afl_custom_mutator load new_caf_store caf.Infrastructure.Stream.read_int
    caf.Infrastructure.Random.select caf.Basic.CafStore.get_entry
    caf.Basic.CafStore.get_entry_function caf.Infrastructure.Random.with_probability
    caf.Infrastructure.Stream.write_int
afl_custom_mutator_adds = (_, refl)

abbrev three_values : List Value
three_values = Value.integer 5 ∷ Value.null ∷ Value.boolean false ∷ []

exchanged-swap_example : exchanged three_values 0 2 0 3 ≡ swap three_values 0 2
exchanged-swap_example = exchanged-swap three_values 0 2 (omega arith) (omega arith)
