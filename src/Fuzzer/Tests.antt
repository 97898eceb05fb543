-- ===== src/Fuzzer/Tests.antt =====
-- Test cases to run src/Fuzzer on, and each theorem about them at a concrete input.
use caf.Prelude.{ℕ, zero, suc, subst, ◌≡◌, refl, true, false, none, some, [], ◌∷◌, ◌++◌, arith, All}
use caf.Infrastructure.Result.{ok, throw, Ends, out_of_range, uninitialised}
use caf.Infrastructure.Stream.{Bytes, write_int, write_float, read_int}
use caf.Fuzzer.Value.{Value, Arrays}
use caf.Fuzzer.TestCase.{FunctionCall, TestCase}
use caf.Fuzzer.Scope.{IsScoped, InScope, ArraysInScope}
use caf.Fuzzer.RoundTrip.{FitsCall}
use mathlib.Core.Option.{some-injective}
use caf.Fuzzer.ObjectPool.{new_object_pool, fpclassify}
use caf.Fuzzer.Serializer.{serialize}
use caf.Fuzzer.Serializer.Total.{serialize-total}
use caf.Fuzzer.Serializer.Termination.{serialize-Ends}
use caf.Fuzzer.Deserializer.Termination.{deserialize-Ends}
use caf.Fuzzer.RoundTrip.Whole.{FitsTestCase, Whole, deserialize-serialize}
use caf.Fuzzer.ObjectPool.Contents.{new_object_pool-IsValid}
use caf.Fuzzer.Deserializer.{deserialize}

-- Two arrays: the first holds itself, the second and a number, and the second is shared.
abbrev heap : Arrays
heap =
    (Value.array 0 ∷ Value.array 1 ∷ Value.integer 7 ∷ [])
    ∷ (Value.string (104 ∷ 105 ∷ []) ∷ Value.placeholder 0 ∷ [])
    ∷ []

abbrev first_call : FunctionCall
first_call = record {
  func_id = 3;
  this = none;
  ctor = true;
  args = Value.boolean true ∷ Value.float 0x3ff0_0000_0000_0000 ∷ [];
}

abbrev second_call : FunctionCall
second_call = record {
  func_id = 4;
  this = some (Value.array 1);
  ctor = false;
  args = Value.array 0 ∷ Value.placeholder 0 ∷ Value.null ∷ [];
}

abbrev two_calls : TestCase
two_calls = record { store_root_entry_index = 2; calls = first_call ∷ second_call ∷ [] }

abbrev two_calls_bytes : Bytes
two_calls_bytes =
    2 ∷ 0 ∷ 0 ∷ 0 ∷ 2 ∷ 0 ∷ 0 ∷ 0 ∷ 3 ∷ 0 ∷ 0 ∷ 0 ∷ 0 ∷ 1 ∷ 2 ∷ 0 ∷ 0 ∷ 0 ∷ 2 ∷ 1 ∷ 6 ∷ 0 ∷ 0 ∷ 0
    ∷ 0 ∷ 0 ∷ 0 ∷ 240 ∷ 63 ∷ 4 ∷ 0 ∷ 0 ∷ 0 ∷ 7 ∷ 2 ∷ 0 ∷ 0 ∷ 0 ∷ 3 ∷ 2 ∷ 0 ∷ 0 ∷ 0 ∷ 104 ∷ 105 ∷ 8
    ∷ 0 ∷ 0 ∷ 0 ∷ 0 ∷ 0 ∷ 3 ∷ 0 ∷ 0 ∷ 0 ∷ 7 ∷ 3 ∷ 0 ∷ 0 ∷ 0 ∷ 8 ∷ 2 ∷ 0 ∷ 0 ∷ 0 ∷ 8 ∷ 1 ∷ 0 ∷ 0 ∷ 0
    ∷ 5 ∷ 7 ∷ 0 ∷ 0 ∷ 0 ∷ 8 ∷ 0 ∷ 0 ∷ 0 ∷ 0 ∷ 1 ∷ []

serialize_runs : serialize heap two_calls ≡ ok two_calls_bytes
unfolding serialize write_int write_float
serialize_runs = refl

serialize_forward_reference :
    serialize [] (record {
      store_root_entry_index = 0;
      calls =
          record { func_id = 0; this = some (Value.placeholder 0); ctor = false; args = [] } ∷ [];
    })
    ≡ throw out_of_range
unfolding serialize write_int
serialize_forward_reference = refl

deserialize_short : deserialize new_object_pool (1 ∷ 2 ∷ []) ≡ throw uninitialised
unfolding deserialize read_int
deserialize_short = refl

first_call-FitsCall : FitsCall first_call
unfolding fpclassify
first_call-FitsCall = record {
  func_id = omega arith;
  this = tt;
  args_count = omega arith;
  args = (tt, ((omega arith, refl), tt));
}

second_call-FitsCall : FitsCall second_call
second_call-FitsCall = omega arith

two_calls-FitsTestCase : FitsTestCase heap two_calls
two_calls-FitsTestCase = record {
  root = omega arith;
  count = omega arith;
  calls = (first_call-FitsCall, (second_call-FitsCall, tt));
  arrays = omega arith;
}

deserialize-serialize_example :
    Whole heap two_calls new_object_pool
      (9 ∷ [])
      (deserialize new_object_pool (two_calls_bytes ++ 9 ∷ []))
deserialize-serialize_example =
    deserialize-serialize heap two_calls new_object_pool (9 ∷ []) two_calls_bytes
      two_calls-FitsTestCase new_object_pool-IsValid serialize_runs

-- The shared array is reached from the second call on; the other one refers to it and to itself.
abbrev level : ℕ → ℕ
level a = 1

heap-ArraysInScope : ArraysInScope level heap
heap-ArraysInScope zero xs e = subst (All (InScope level 2 1)) (some-injective _ _ e) (omega arith)
heap-ArraysInScope (suc zero) xs e =
    subst (All (InScope level 2 1)) (some-injective _ _ e) (omega arith)
heap-ArraysInScope (suc (suc a)) xs e = cc

two_calls-IsScoped : IsScoped level heap two_calls
two_calls-IsScoped = record { arrays = heap-ArraysInScope; calls = omega arith }

serialize-total_example : (bs : Bytes) × (serialize heap two_calls ≡ ok bs)
serialize-total_example = serialize-total heap two_calls level two_calls-IsScoped

serialize-Ends_example : Ends (serialize heap two_calls)
serialize-Ends_example = serialize-Ends heap two_calls

deserialize-Ends_example : Ends (deserialize new_object_pool (255 ∷ 255 ∷ 255 ∷ []))
deserialize-Ends_example = deserialize-Ends new_object_pool (255 ∷ 255 ∷ 255 ∷ [])
