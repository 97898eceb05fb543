-- ===== src/Fuzzer/Deserializer.antt =====
-- src/Fuzzer/TestCaseDeserializer.cpp.
pub mod Termination
use caf.Prelude.{
  ℕ, zero, suc, ◌+◌, Bool, not, Option, none, some, List, [], ◌∷◌, ◌++◌, length, get_elem?, lookup,
  insert, ◌==◌,
}
use caf.Infrastructure.Result.{
  Result, ok, out_of_fuel, out_of_range, unreachable, null_pointer, or_throw, ◌>>=◌,
}
use caf.Infrastructure.Stream.{Bytes, read_byte, read_int, read_float}
use caf.Fuzzer.Value.{Value, ValueKind, push}
use caf.Fuzzer.TestCase.{
  FunctionCall, TestCase, new_function_call, set_this, set_constructor_call, push_arg,
  new_test_case, set_store_root_entry_index, push_function_call,
}
use caf.Fuzzer.ObjectPool.{
  ObjectPool, get_undefined_value, get_null_value, get_function_value, get_boolean_value,
  get_or_create_string_value, get_or_create_integer_value, get_or_create_float_value,
  create_array_value, get_placeholder_value,
}

-- `pool` holds an array for each index, or the null pointer for a return value.
pub record DeserializationContext : Type 0 where
  pub pool : List (Option Value)
  pub ret_value_index : List (ℕ × ℕ)

abbrev pub new_deserialization_context : DeserializationContext
new_deserialization_context = record { pool = []; ret_value_index = [] }

-- What a call reads from, and what it changes.
pub record Reader : Type 0 where
  pub input : Bytes
  pub objects : ObjectPool
  pub context : DeserializationContext

abbrev pub Reads : Type 0 → Type 0
Reads A = Reader → Result (A × Reader)

abbrev pub set_next_value : Value → Reader → Reader
set_next_value v r = record r {
  context = record (r.context) { pool = r.context.pool ++ some v ∷ [] };
}

abbrev pub set_next_value_as_return_value : ℕ → Reader → Reader
set_next_value_as_return_value i r = record r {
  context = record {
    pool = r.context.pool ++ none ∷ [];
    ret_value_index = insert (length r.context.pool) i r.context.ret_value_index;
  };
}

abbrev pub with_input {ℓ} : {A : Type ℓ} → Result (A × Bytes) → Reader → Result (A × Reader)
with_input m r = m >>= λ (a, rest). ok (a, record r { input = rest })

abbrev pub take_int : ℕ → Reads ℕ
take_int n r = with_input (read_int n r.input) r

abbrev pub with_pool : (ObjectPool → Value × ObjectPool) → Reader → Result (Value × Reader)
with_pool get r = let (v, p) = get r.objects in ok (v, record r { objects = p })

abbrev pub to_bool : ℕ → Bool
to_bool b = not (b == 0)

-- The string's characters, one ReadByte each.
unfoldable pub read_chars : ℕ → Bytes → Result (Bytes × Bytes)
unfolding read_byte
read_chars zero input = ok ([], input)
read_chars (suc n) input =
    read_byte input >>= λ (b, rest). read_chars n rest >>= λ (s, rest'). ok (b ∷ s, rest')

abbrev pub kind_of_code : ℕ → Option ValueKind
kind_of_code zero = some ValueKind.undefined
kind_of_code (suc zero) = some ValueKind.null
kind_of_code (suc (suc zero)) = some ValueKind.boolean
kind_of_code (suc (suc (suc zero))) = some ValueKind.string
kind_of_code (suc (suc (suc (suc zero)))) = some ValueKind.function
kind_of_code (suc (suc (suc (suc (suc zero))))) = some ValueKind.integer
kind_of_code (suc (suc (suc (suc (suc (suc zero)))))) = some ValueKind.float
kind_of_code (suc (suc (suc (suc (suc (suc (suc zero))))))) = some ValueKind.array
kind_of_code (suc (suc (suc (suc (suc (suc (suc (suc zero)))))))) = some ValueKind.placeholder
kind_of_code _ = none

-- `for (i = 0; i < n; ++i) arrayValue->Push(DeserializeValue(context));`
unfoldable pub push_elements : Reads Value → ℕ → ℕ → Reader → Result Reader
unfolding push
push_elements next a zero r = ok r
push_elements next a (suc n) r = next r >>= λ (v, r'). push_elements next a n (record r' {
  objects = record (r'.objects) { array_values = push a v r'.objects.array_values };
})

-- A new array takes the next index before its elements are read.
unfoldable pub read_array : Reads Value → Reads Value
unfolding push_elements create_array_value
read_array next r =
    let a = length r.objects.array_values in
    with_pool create_array_value r >>= λ (v, r₁). take_int 4 (set_next_value v r₁) >>= λ (size, r₂).
    push_elements next a size r₂ >>= λ r₃. ok (v, r₃)

unfoldable pub read_placeholder : Reads Value
read_placeholder r = take_int 4 r >>= λ (index, r').
    elim (lookup index r'.context.ret_value_index) [
      | some i ↦ get_placeholder_value i r'.objects >>= λ (v, p). ok (v, record r' { objects = p })
      | none ↦ or_throw out_of_range (get_elem? r'.context.pool index) >>= λ slot.
          or_throw null_pointer slot >>= λ v. ok (v, r')
    ]

-- The switch over the kind.
unfoldable pub read_value : Reads Value → ValueKind → Reads Value
unfolding read_array read_placeholder read_chars
read_value next ValueKind.undefined r = with_pool get_undefined_value r
read_value next ValueKind.null r = with_pool get_null_value r
read_value next ValueKind.function r =
    take_int 4 r >>= λ (f, r'). with_pool (get_function_value f) r'
read_value next ValueKind.boolean r =
    take_int 1 r >>= λ (b, r'). with_pool (get_boolean_value (to_bool b)) r'
read_value next ValueKind.string r = take_int 4 r >>= λ (n, r₁).
    with_input (read_chars n r₁.input) r₁ >>= λ (s, r₂). with_pool (get_or_create_string_value s) r₂
read_value next ValueKind.integer r =
    take_int 4 r >>= λ (n, r'). with_pool (get_or_create_integer_value n) r'
read_value next ValueKind.float r =
    with_input (read_float r.input) r >>= λ (d, r'). with_pool (get_or_create_float_value d) r'
read_value next ValueKind.array r = read_array next r
read_value next ValueKind.placeholder r = read_placeholder r

-- Each level of nested arrays costs a unit of fuel.
unfoldable pub deserialize_value : ℕ → Reads Value
unfolding read_value
deserialize_value zero r = out_of_fuel
deserialize_value (suc f) r = take_int 1 r >>= λ (code, r').
    or_throw unreachable (kind_of_code code) >>= λ k. read_value (deserialize_value f) k r'

unfoldable pub push_args : Reads Value → ℕ → FunctionCall → Reads FunctionCall
push_args next zero call r = ok (call, r)
push_args next (suc n) call r = next r >>= λ (v, r'). push_args next n (push_arg v call) r'

unfoldable pub deserialize_function_call : ℕ → Reads FunctionCall
unfolding deserialize_value push_args new_function_call set_this set_constructor_call push_arg
deserialize_function_call f r = take_int 4 r >>= λ (func_id, r₁).
    deserialize_value f r₁ >>= λ (this, r₂). take_int 1 r₂ >>= λ (is_ctor, r₃).
    take_int 4 r₃ >>= λ (args_count, r₄).
    push_args (deserialize_value f) args_count
      (set_constructor_call (to_bool is_ctor) (set_this this (new_function_call func_id))) r₄

-- The loop over the calls: `n` are left, and the next has the index `i`.
unfoldable pub deserialize_calls : ℕ → ℕ → ℕ → TestCase → Reads TestCase
unfolding deserialize_function_call push_function_call
deserialize_calls f i zero t r = ok (t, r)
deserialize_calls f i (suc n) t r = deserialize_function_call f r >>= λ (call, r').
    deserialize_calls f (i + 1) n (push_function_call call t) (set_next_value_as_return_value i r')

-- Every array takes five bytes of the input.
abbrev pub deserialization_fuel : Bytes → ℕ
deserialization_fuel input = suc (length input)

unfoldable pub deserialize : ObjectPool → Bytes → Result (TestCase × Reader)
unfolding deserialize_calls new_test_case set_store_root_entry_index
deserialize objects input =
    let start : Reader = record {
      input = input;
      objects = objects;
      context = new_deserialization_context;
    } in
    take_int 4 start >>= λ (root, r₁). take_int 4 r₁ >>= λ (n, r₂).
    deserialize_calls (deserialization_fuel input) 0 n
      (set_store_root_entry_index root new_test_case) r₂
