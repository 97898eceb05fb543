-- ===== src/Fuzzer/Value.antt =====
-- include/Fuzzer/Value.h and include/Basic/ValueKind.h.
-- All values but arrays never change once they are made, and a pointer to one stands here as its
-- content. An array is mutable and can be shared: a pointer to it is its address, the position in
-- the vector of arrays that the object pool owns.
use caf.Prelude.{
  ℕ, Bool, true, false, List, [], ◌∷◌, ◌++◌, Option, none, some, get_elem?, set, length, ltb,
  if◌then◌else◌,
}
use caf.Infrastructure.Result.{Result, ok, throw, out_of_range, assertion, or_throw, ◌>>=◌}

pub data ValueKind : Type 0 where
  undefined null boolean string function integer float array placeholder : ValueKind

-- The numbers that the enumerators have, in the order of CAF_VALUE_KIND_LIST.
abbrev pub kind_code : ValueKind → ℕ
kind_code ValueKind.undefined = 0
kind_code ValueKind.null = 1
kind_code ValueKind.boolean = 2
kind_code ValueKind.string = 3
kind_code ValueKind.function = 4
kind_code ValueKind.integer = 5
kind_code ValueKind.float = 6
kind_code ValueKind.array = 7
kind_code ValueKind.placeholder = 8

-- An integer is the pattern of an int32_t, a float that of a double, a string its bytes.
pub data Value : Type 0 where
  undefined null : Value
  boolean : Bool → Value
  string : List ℕ → Value
  function : ℕ → Value
  integer : ℕ → Value
  float : ℕ → Value
  array : ℕ → Value
  placeholder : ℕ → Value

abbrev pub kind : Value → ValueKind
kind Value.undefined = ValueKind.undefined
kind Value.null = ValueKind.null
kind (Value.boolean b) = ValueKind.boolean
kind (Value.string s) = ValueKind.string
kind (Value.function f) = ValueKind.function
kind (Value.integer n) = ValueKind.integer
kind (Value.float d) = ValueKind.float
kind (Value.array a) = ValueKind.array
kind (Value.placeholder i) = ValueKind.placeholder

abbrev pub is_array : Value → Bool
is_array (Value.array a) = true
is_array _ = false

abbrev pub is_placeholder : Value → Bool
is_placeholder (Value.placeholder i) = true
is_placeholder _ = false

-- Each accessor asserts that the value is of its kind.
unfoldable pub get_boolean_value : Value → Result Bool
get_boolean_value (Value.boolean b) = ok b
get_boolean_value _ = throw assertion

unfoldable pub get_integer_value : Value → Result ℕ
get_integer_value (Value.integer n) = ok n
get_integer_value _ = throw assertion

unfoldable pub get_float_value : Value → Result ℕ
get_float_value (Value.float d) = ok d
get_float_value _ = throw assertion

unfoldable pub get_string_value : Value → Result (List ℕ)
get_string_value (Value.string s) = ok s
get_string_value _ = throw assertion

unfoldable pub get_function_id : Value → Result ℕ
get_function_id (Value.function f) = ok f
get_function_id _ = throw assertion

unfoldable pub get_placeholder_index : Value → Result ℕ
get_placeholder_index (Value.placeholder i) = ok i
get_placeholder_index _ = throw assertion

-- The elements of each array, by address.
abbrev pub Arrays : Type 0
Arrays = List (List Value)

abbrev pub elements : Arrays → ℕ → Option (List Value)
elements heap a = get_elem? heap a

-- ArrayValue::Push.
unfoldable pub push : ℕ → Value → Arrays → Arrays
push a v heap = elim (get_elem? heap a) [ none ↦ heap | some xs ↦ set heap a (xs ++ v ∷ []) ]

-- ArrayValue::GetElement and SetElement, both by `.at`.
unfoldable pub get_element : ℕ → ℕ → Arrays → Result Value
get_element a i heap =
    or_throw out_of_range (get_elem? heap a) >>= λ xs. or_throw out_of_range (get_elem? xs i)

unfoldable pub set_element : ℕ → ℕ → Value → Arrays → Result Arrays
set_element a i v heap = or_throw out_of_range (get_elem? heap a) >>= λ xs.
    if ltb i (length xs) then ok (set heap a (set xs i v)) else throw out_of_range
