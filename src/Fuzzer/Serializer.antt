-- ===== src/Fuzzer/Serializer.antt =====
-- src/Fuzzer/TestCaseSerializer.cpp. A call returns the bytes that it writes and the context that it
-- leaves; the C++ code appends the bytes to its output stream as it goes.
pub mod Termination
pub mod Total
use caf.Prelude.{
  ℕ, zero, suc, ◌+◌, Bool, true, false, Option, none, some, List, [], ◌∷◌, ◌++◌, length, lookup,
  insert,
}
use caf.Infrastructure.Result.{Result, ok, out_of_fuel, out_of_range, null_pointer, or_throw, ◌>>=◌}
use caf.Infrastructure.Stream.{Bytes, write_int, write_float}
use caf.Fuzzer.Value.{Value, Arrays, kind_code, kind, elements}
use caf.Fuzzer.TestCase.{FunctionCall, TestCase}

-- Only arrays are ever entered in `_valueIndexes`, so its keys are addresses.
pub record SerializationContext : Type 0 where
  pub value_indexes : List (ℕ × ℕ)
  pub ret_value_indexes : List (ℕ × ℕ)
  pub index_alloc : ℕ

abbrev pub new_serialization_context : SerializationContext
new_serialization_context = record { value_indexes = []; ret_value_indexes = []; index_alloc = 0 }

abbrev pub get_value_index : ℕ → SerializationContext → Option ℕ
get_value_index a c = lookup a c.value_indexes

abbrev pub set_next_value : ℕ → SerializationContext → SerializationContext
set_next_value a c = record c {
  value_indexes = insert a c.index_alloc c.value_indexes;
  index_alloc = c.index_alloc + 1;
}

abbrev pub set_next_value_as_return_value : ℕ → SerializationContext → SerializationContext
set_next_value_as_return_value i c = record c {
  ret_value_indexes = insert i c.index_alloc c.ret_value_indexes;
  index_alloc = c.index_alloc + 1;
}

abbrev pub get_return_value_index : ℕ → SerializationContext → Result ℕ
get_return_value_index i c = or_throw out_of_range (lookup i c.ret_value_indexes)

-- A reference to a return value, or to an array that was written before, is written as the
-- placeholder of its index.
unfoldable pub substitute : Value → SerializationContext → Result Value
substitute (Value.placeholder i) c = get_return_value_index i c >>= λ k. ok (Value.placeholder k)
substitute (Value.array a) c = elim (get_value_index a c) [
  | none ↦ ok (Value.array a)
  | some k ↦ ok (Value.placeholder k)
]
substitute v c = ok v

abbrev pub bool_code : Bool → ℕ
bool_code false = 0
bool_code true = 1

abbrev pub Writes : Type 0
Writes = SerializationContext → Result (Bytes × SerializationContext)

unfoldable pub serialize_all : (Value → Writes) → List Value → Writes
serialize_all write [] c = ok ([], c)
serialize_all write (v ∷ vs) c =
    write v c >>= λ (bs, c'). serialize_all write vs c' >>= λ (bs', c''). ok (bs ++ bs', c'')

abbrev pub tag : Value → Bytes
tag v = write_int 1 (kind_code (kind v))

-- The switch over the kind of the value that is left after the substitution.
unfoldable pub write_value : (Value → Writes) → Arrays → Value → Writes
unfolding serialize_all
write_value write heap Value.undefined c = ok (tag Value.undefined, c)
write_value write heap Value.null c = ok (tag Value.null, c)
write_value write heap (Value.boolean b) c =
    ok (tag (Value.boolean b) ++ write_int 1 (bool_code b), c)
write_value write heap (Value.string s) c =
    ok (tag (Value.string s) ++ (write_int 4 (length s) ++ s), c)
write_value write heap (Value.function f) c = ok (tag (Value.function f) ++ write_int 4 f, c)
write_value write heap (Value.integer n) c = ok (tag (Value.integer n) ++ write_int 4 n, c)
write_value write heap (Value.float d) c = ok (tag (Value.float d) ++ write_float d, c)
write_value write heap (Value.array a) c = or_throw null_pointer (elements heap a) >>= λ xs.
    serialize_all write xs (set_next_value a c) >>= λ (bs, c').
    ok (tag (Value.array a) ++ (write_int 4 (length xs) ++ bs), c')
write_value write heap (Value.placeholder i) c = ok (tag (Value.placeholder i) ++ write_int 4 i, c)

-- Each level of nested arrays costs a unit of fuel.
unfoldable pub serialize_value : ℕ → Arrays → Value → Writes
unfolding substitute write_value
serialize_value zero heap v c = out_of_fuel
serialize_value (suc f) heap v c =
    substitute v c >>= λ w. write_value (serialize_value f heap) heap w c

abbrev pub this_or_undefined : FunctionCall → Value
this_or_undefined call = elim call.this [ none ↦ Value.undefined | some v ↦ v ]

unfoldable pub serialize_function_call : ℕ → Arrays → FunctionCall → Writes
unfolding serialize_value serialize_all
serialize_function_call f heap call c =
    serialize_value f heap (this_or_undefined call) c >>= λ (this, c').
    serialize_all (serialize_value f heap) call.args c' >>= λ (args, c''). ok (
      write_int 4 call.func_id
          ++ (this
              ++ (write_int 1 (bool_code call.ctor) ++ (write_int 4 (length call.args) ++ args))),
      c'',
    )

-- The loop over the calls, from the call of index `i`.
unfoldable pub serialize_calls : ℕ → Arrays → ℕ → List FunctionCall → Writes
unfolding serialize_function_call
serialize_calls f heap i [] c = ok ([], c)
serialize_calls f heap i (call ∷ calls) c = serialize_function_call f heap call c >>= λ (bs, c').
    serialize_calls f heap (i + 1) calls (set_next_value_as_return_value i c') >>= λ (bs', c'').
    ok (bs ++ bs', c'')

-- No value is deeper than there are arrays, since an array is expanded only once.
abbrev pub serialization_fuel : Arrays → ℕ
serialization_fuel heap = suc (length heap)

unfoldable pub serialize : Arrays → TestCase → Result Bytes
unfolding serialize_calls
serialize heap t =
    serialize_calls (serialization_fuel heap) heap 0 t.calls new_serialization_context
    >>= λ (bs, c). ok (write_int 4 t.store_root_entry_index ++ (write_int 4 (length t.calls) ++ bs))
