-- ===== src/Fuzzer/PoolTests.antt =====
-- The object pool of src/Fuzzer/ObjectPool.cpp at concrete values, and the integers of the format.
use caf.Prelude.{ℕ, ◌≡◌, refl, true, List, [], ◌∷◌, ◌++◌, arith}
use caf.Infrastructure.Result.{ok, Succeeds}
use caf.Infrastructure.Stream.{write_int, read_int, read_int-write_int}
use caf.Fuzzer.Value.{Value}
use caf.Fuzzer.ObjectPool.{
  ObjectPool, new_object_pool, get_or_create_string_value, get_or_create_integer_value,
  get_placeholder_value, get_function_value, get_boolean_value, get_or_create_float_value, clear,
  infinity, neg_infinity, fpclassify, integer_index,
}
use caf.Fuzzer.ObjectPool.Contents.{
  IsValid, Returns, new_object_pool-IsValid, clear-IsOwned, IsOwned,
}
use caf.Fuzzer.ObjectPool.Singles.{get_function_value-Returns, get_boolean_value-Returns}
use caf.Fuzzer.ObjectPool.Tables.{
  get_or_create_string_value-Returns, get_or_create_integer_value-Returns,
  get_placeholder_value-Returns,
}
use caf.Fuzzer.ObjectPool.Caching.{
  get_or_create_string_value_idem, get_or_create_integer_value_idem, infinities_conflated,
}

abbrev hi : List ℕ
hi = 104 ∷ 105 ∷ []

-- A pool that has been asked for "hi" and for 7.
abbrev used : ObjectPool
used = (get_or_create_integer_value 7 (get_or_create_string_value hi new_object_pool).1).1

used-IsValid : IsValid used
used-IsValid =
    (get_or_create_integer_value-Returns _
      (get_or_create_string_value-Returns new_object_pool new_object_pool-IsValid hi).valid 7
      (omega arith)).valid

minus_infinity_lost :
    (get_or_create_float_value neg_infinity
      (get_or_create_float_value infinity new_object_pool).1).0
    ≡ Value.float infinity
unfolding get_or_create_float_value new_object_pool
minus_infinity_lost = refl

get_or_create_string_value-Returns_example :
    Returns (Value.string hi) used (get_or_create_string_value hi used)
get_or_create_string_value-Returns_example = get_or_create_string_value-Returns used used-IsValid hi

get_or_create_integer_value-Returns_example :
    Returns (Value.integer 7) used (get_or_create_integer_value 7 used)
get_or_create_integer_value-Returns_example =
    get_or_create_integer_value-Returns used used-IsValid 7 (omega arith)

get_placeholder_value-Returns_example :
    Succeeds (Returns (Value.placeholder 12) used) (get_placeholder_value 12 used)
get_placeholder_value-Returns_example = get_placeholder_value-Returns used used-IsValid 12

get_function_value-Returns_example : Returns (Value.function 3) used (get_function_value 3 used)
get_function_value-Returns_example = get_function_value-Returns used used-IsValid 3

get_boolean_value-Returns_example : Returns (Value.boolean true) used (get_boolean_value true used)
get_boolean_value-Returns_example = get_boolean_value-Returns used used-IsValid true

clear-IsOwned_example : IsValid (clear used) × IsOwned (clear used)
clear-IsOwned_example = clear-IsOwned used-IsValid

get_or_create_string_value_idem_example :
    let (v, q) = get_or_create_string_value hi used in get_or_create_string_value hi q ≡ (v, q)
get_or_create_string_value_idem_example = get_or_create_string_value_idem hi used (omega arith)

get_or_create_integer_value_idem_example :
    let (v, q) = get_or_create_integer_value 5 new_object_pool in
    get_or_create_integer_value 5 q ≡ (v, q)
unfolding integer_index new_object_pool
get_or_create_integer_value_idem_example =
    get_or_create_integer_value_idem 5 105 new_object_pool refl refl

infinities_conflated_example :
    (get_or_create_float_value neg_infinity (get_or_create_float_value infinity used).1).0
    ≡ (get_or_create_float_value infinity used).0
unfolding fpclassify
infinities_conflated_example = infinities_conflated infinity neg_infinity used refl refl

read_int-write_int_example : read_int 4 (write_int 4 0x01020304 ++ 9 ∷ []) ≡ ok (0x01020304, 9 ∷ [])
read_int-write_int_example = read_int-write_int 4 0x01020304 (9 ∷ []) (omega arith)
