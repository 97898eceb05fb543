-- ===== src/Fuzzer/ObjectPool.antt =====
-- include/Fuzzer/ObjectPool.h and src/Fuzzer/ObjectPool.cpp. A pointer that the pool keeps is the
-- content that it points to, and a null pointer is `none`.
pub mod Contents
pub mod Singles
pub mod Tables
pub mod Caching
pub mod Leaves
use caf.Prelude.{
  ℕ, ◌+◌, ◌-◌, ◌/◌, ◌%◌, ◌^◌, Bool, true, false, ◌&&◌, ◌||◌, Option, none, some, List, [], ◌∷◌,
  ◌++◌, length, get_elem?, set, replicate, lookup, insert, ltb, leb, ◌==◌, if◌then◌else◌,
}
use caf.Infrastructure.Result.{Result, ok, or_throw, out_of_range, ◌>>=◌}
use caf.Fuzzer.Value.{Value, Arrays}

abbrev pub integer_table_size : ℕ
integer_table_size = 500

abbrev pub integer_bias : ℕ
integer_bias = 100

abbrev pub max_string_len_in_table : ℕ
max_string_len_in_table = 10

abbrev pub placeholder_table_init_size : ℕ
placeholder_table_init_size = 10

pub record ObjectPool : Type 0 where
  pub values : List Value
  pub undef : Option Value
  pub null_value : Option Value
  pub func_values : List (ℕ × Value)
  -- `_bool[0]` and `_bool[1]`.
  pub bool_false : Option Value
  pub bool_true : Option Value
  pub str_to_value : List (List ℕ × Value)
  pub int_table : List (Option Value)
  pub nan : Option Value
  pub inf : Option Value
  pub neg_inf : Option Value
  pub array_values : Arrays
  pub placeholder_values : List (Option Value)

unfoldable pub new_object_pool : ObjectPool
new_object_pool = record {
  values = [];
  undef = none;
  null_value = none;
  func_values = [];
  bool_false = none;
  bool_true = none;
  str_to_value = [];
  int_table = replicate integer_table_size none;
  nan = none;
  inf = none;
  neg_inf = none;
  array_values = [];
  placeholder_values = replicate placeholder_table_init_size none;
}

-- The object that the pointer has, or a new one.
abbrev pub get_or_create : Option Value → Value → Value
get_or_create none v = v
get_or_create (some w) v = w

-- CreateValue: the pool owns the new object.
unfoldable pub create_value : Value → ObjectPool → Value × ObjectPool
create_value v p = (v, record p { values = p.values ++ v ∷ [] })

unfoldable pub get_undefined_value : ObjectPool → Value × ObjectPool
get_undefined_value p =
    let v = get_or_create p.undef Value.undefined in (v, record p { undef = some v })

unfoldable pub get_null_value : ObjectPool → Value × ObjectPool
get_null_value p =
    let v = get_or_create p.null_value Value.null in (v, record p { null_value = some v })

unfoldable pub get_function_value : ℕ → ObjectPool → Value × ObjectPool
get_function_value f p = elim (lookup f p.func_values) [
  | none ↦ (Value.function f, record p { func_values = insert f (Value.function f) p.func_values })
  | some v ↦ (v, p)
]

unfoldable pub get_boolean_value : Bool → ObjectPool → Value × ObjectPool
get_boolean_value false p =
    let v = get_or_create p.bool_false (Value.boolean false) in
    (v, record p { bool_false = some v })
get_boolean_value true p =
    let v = get_or_create p.bool_true (Value.boolean true) in (v, record p { bool_true = some v })

abbrev pub string_eq : List ℕ → List ℕ → Bool
string_eq [] [] = true
string_eq [] (c ∷ t) = false
string_eq (b ∷ s) [] = false
string_eq (b ∷ s) (c ∷ t) = b == c && string_eq s t

abbrev pub lookup_string : List ℕ → List (List ℕ × Value) → Option Value
lookup_string s [] = none
lookup_string s ((t, v) ∷ m) = if string_eq t s then some v else lookup_string s m

unfoldable pub get_or_create_string_value : List ℕ → ObjectPool → Value × ObjectPool
unfolding create_value
get_or_create_string_value s p =
    if leb (length s) max_string_len_in_table
    then elim (lookup_string s p.str_to_value) [
      | some v ↦ (v, p)
      | none ↦
          let (v, q) = create_value (Value.string s) p in
          (v, record q { str_to_value = (s, v) ∷ q.str_to_value })
    ]
    else create_value (Value.string s) p

-- The slot of an int32_t pattern: the sum does not overflow, since its test comes first, and a sum
-- below zero is a size_t beyond the table.
unfoldable pub integer_index : ℕ → Option ℕ
integer_index n =
    let below_max = leb (2 ^ 31) n || leb n (2 ^ 31 - 1 - integer_bias) in
    let index = (n + integer_bias) % 2 ^ 32 in
    let unsigned = if ltb index (2 ^ 31) then index else index + (2 ^ 64 - 2 ^ 32) in
    if below_max && ltb unsigned integer_table_size then some unsigned else none

abbrev pub held : List (Option Value) → ℕ → Option Value
held table i = elim (get_elem? table i) [ none ↦ none | some slot ↦ slot ]

unfoldable pub get_or_create_integer_value : ℕ → ObjectPool → Value × ObjectPool
unfolding integer_index create_value
get_or_create_integer_value n p = elim (integer_index n) [
  | none ↦ create_value (Value.integer n) p
  | some i ↦ elim (held p.int_table i) [
    | some v ↦ (v, p)
    | none ↦
        let (v, q) = create_value (Value.integer n) p in
        (v, record q { int_table = set q.int_table i (some v) })
  ]
]

-- std::fpclassify of a double's bit pattern, as far as the pool tells classes apart.
pub data FloatClass : Type 0 where
  fp_nan fp_infinite fp_other : FloatClass

unfoldable pub fpclassify : ℕ → FloatClass
fpclassify d =
    let exponent = (d / 2 ^ 52) % 2 ^ 11 in
    let mantissa = d % 2 ^ 52 in
    if exponent == 2047
    then (if mantissa == 0 then FloatClass.fp_infinite else FloatClass.fp_nan)
    else FloatClass.fp_other

abbrev pub quiet_nan : ℕ
quiet_nan = 0x7ff8_0000_0000_0000

abbrev pub infinity : ℕ
infinity = 0x7ff0_0000_0000_0000

abbrev pub neg_infinity : ℕ
neg_infinity = 0xfff0_0000_0000_0000

-- Both infinities go through the one pointer `_inf`.
unfoldable pub get_or_create_float_value : ℕ → ObjectPool → Value × ObjectPool
unfolding fpclassify create_value
get_or_create_float_value d p = elim (fpclassify d) [
  | FloatClass.fp_nan ↦
      let v = get_or_create p.nan (Value.float quiet_nan) in (v, record p { nan = some v })
  | FloatClass.fp_infinite ↦
      let fresh = if ltb d (2 ^ 63) then infinity else neg_infinity in
      let v = get_or_create p.inf (Value.float fresh) in (v, record p { inf = some v })
  | FloatClass.fp_other ↦ create_value (Value.float d) p
]

unfoldable pub create_array_value : ObjectPool → Value × ObjectPool
create_array_value p =
    (Value.array (length p.array_values), record p { array_values = p.array_values ++ [] ∷ [] })

abbrev pub resize : List (Option Value) → ℕ → List (Option Value)
resize xs n = xs ++ replicate (n - length xs) none

-- The table with room for the index.
abbrev pub placeholder_table : ℕ → ObjectPool → List (Option Value)
placeholder_table i p =
    if leb (length p.placeholder_values) i
    then resize p.placeholder_values (i + 1)
    else p.placeholder_values

unfoldable pub get_placeholder_value : ℕ → ObjectPool → Result (Value × ObjectPool)
get_placeholder_value i p = or_throw out_of_range (get_elem? (placeholder_table i p) i) >>= λ slot.
    let v = get_or_create slot (Value.placeholder i) in
    ok (v, record p { placeholder_values = set (placeholder_table i p) i (some v) })

unfoldable pub clear : ObjectPool → ObjectPool
clear p = record p { values = []; str_to_value = []; int_table = replicate integer_table_size none }
