-- ===== src/Fuzzer/TestCase.antt =====
-- include/Fuzzer/FunctionCall.h and include/Fuzzer/TestCase.h.
use caf.Prelude.{
  ℕ, zero, suc, ◌-◌, ◌^◌, Bool, true, false, Option, none, some, List, [], ◌∷◌, ◌++◌, length,
  get_elem?, set, take, insert_idx, erase_idx, ltb, leb, if◌then◌else◌,
}
use caf.Infrastructure.Result.{
  Result, ok, throw, out_of_range, assertion, undefined_behavior, or_throw,
}
use caf.Fuzzer.Value.{Value}

pub record FunctionCall : Type 0 where
  pub func_id : ℕ
  -- A null pointer is `none`.
  pub this : Option Value
  pub ctor : Bool
  pub args : List Value

unfoldable pub new_function_call : ℕ → FunctionCall
new_function_call id = record { func_id = id; this = none; ctor = false; args = [] }

unfoldable pub has_this : FunctionCall → Bool
has_this c = elim c.this [ none ↦ false | some v ↦ true ]

unfoldable pub set_this : Value → FunctionCall → FunctionCall
set_this v c = record c { this = some v }

unfoldable pub set_constructor_call : Bool → FunctionCall → FunctionCall
set_constructor_call b c = record c { ctor = b }

unfoldable pub push_arg : Value → FunctionCall → FunctionCall
push_arg v c = record c { args = c.args ++ v ∷ [] }

unfoldable pub get_arg : ℕ → FunctionCall → Result Value
get_arg i c = or_throw out_of_range (get_elem? c.args i)

unfoldable pub set_arg : ℕ → Value → FunctionCall → Result FunctionCall
set_arg i v c =
    if ltb i (length c.args) then ok (record c { args = set c.args i v }) else throw out_of_range

-- `erase` at a position past the end is undefined.
unfoldable pub remove_arg : ℕ → FunctionCall → Result FunctionCall
remove_arg i c =
    if ltb i (length c.args)
    then ok (record c { args = erase_idx c.args i })
    else throw undefined_behavior

pub record TestCase : Type 0 where
  pub store_root_entry_index : ℕ
  pub calls : List FunctionCall

unfoldable pub new_test_case : TestCase
new_test_case = record { store_root_entry_index = 0; calls = [] }

unfoldable pub set_store_root_entry_index : ℕ → TestCase → TestCase
set_store_root_entry_index i t = record t { store_root_entry_index = i }

unfoldable pub function_calls_count : TestCase → ℕ
function_calls_count t = length t.calls

-- `n - 1` of a size_t.
abbrev pub last_index : ℕ → ℕ
last_index zero = 2 ^ 64 - 1
last_index (suc n) = n

unfoldable pub get_function_call : ℕ → TestCase → Result FunctionCall
get_function_call i t = or_throw out_of_range (get_elem? t.calls i)

unfoldable pub set_function_call : ℕ → FunctionCall → TestCase → Result TestCase
set_function_call i c t =
    if ltb i (length t.calls) then ok (record t { calls = set t.calls i c }) else throw out_of_range

unfoldable pub push_function_call : FunctionCall → TestCase → TestCase
push_function_call c t = record t { calls = t.calls ++ c ∷ [] }

unfoldable pub insert_function_call : ℕ → FunctionCall → TestCase → Result TestCase
insert_function_call i c t =
    if leb i (length t.calls)
    then ok (record t { calls = insert_idx t.calls i c })
    else throw assertion

unfoldable pub remove_function_call : ℕ → TestCase → Result TestCase
remove_function_call i t =
    if ltb i (length t.calls)
    then ok (record t { calls = erase_idx t.calls i })
    else throw assertion

unfoldable pub remove_tail_calls : ℕ → TestCase → Result TestCase
remove_tail_calls i t =
    if leb i (length t.calls) then ok (record t { calls = take i t.calls }) else throw assertion

unfoldable pub append_function_calls : List FunctionCall → TestCase → TestCase
append_function_calls cs t = record t { calls = t.calls ++ cs }
