-- ===== src/Fuzzer/Synthesis.antt =====
-- src/Fuzzer/JavaScriptSynthesisBuilder.cpp and src/Fuzzer/NodejsSynthesisBuilder.cpp: the text of
-- values and of statements. A variable `_k` is its number `k`.
pub mod Strings
pub mod Modules
pub mod Builder
pub mod Program
pub mod Writes
pub mod Runs
pub mod Constants
pub mod Calls
pub mod Whole
use caf.Prelude.{
  ℕ, zero, suc, ◌+◌, ◌-◌, ◌/◌, ◌%◌, ◌^◌, Bool, true, false, Option, none, some, List, [], ◌∷◌, ◌++◌,
  ltb, leb, ◌==◌, if◌then◌else◌, not, ◌&&◌,
}
use caf.Infrastructure.Result.{Result, ok, throw, assertion, unreachable, ◌>>=◌}
use caf.Basic.CafStore
use caf.Basic.CafStore.{CafStore}
use caf.Fuzzer.Value.{Value}
use caf.Fuzzer.ObjectPool.{FloatClass, fpclassify}

-- What the C++ standard library prints, how it sorts characters, and CAF_LIB_DIR of the build.
pub record Library : Type 0 where
  pub to_string : ℕ → List ℕ
  pub print_integer : ℕ → List ℕ
  pub print_float : ℕ → List ℕ
  pub is_print : ℕ → Bool
  pub is_lower : ℕ → Bool
  pub lib_dir : List ℕ

-- An int: `n`, or `-(n + 1)`.
pub data ℤ : Type 0 where
  pos : ℕ → ℤ
  negsuc : ℕ → ℤ

abbrev pub minus : ℕ → ℤ
minus zero = ℤ.pos zero
minus (suc n) = ℤ.negsuc n

unfoldable pub to_hex_digit : ℤ → Result ℕ
to_hex_digit (ℤ.pos n) =
    if ltb n 16 then ok (if ltb n 10 then 48 + n else 97 + (n - 10)) else throw assertion
to_hex_digit (ℤ.negsuc n) = throw assertion

-- A char is signed, and its quotient and its remainder have its sign.
abbrev pub char_div : ℕ → ℕ → ℤ
char_div ch d = if ltb ch 128 then ℤ.pos (ch / d) else minus ((256 - ch) / d)

abbrev pub char_mod : ℕ → ℕ → ℤ
char_mod ch d = if ltb ch 128 then ℤ.pos (ch % d) else minus ((256 - ch) % d)

-- The texts between the names and the values, as ASCII.
abbrev open_text : List ℕ
open_text = 40 ∷ []

abbrev let_text : List ℕ
let_text = 108 ∷ 101 ∷ 116 ∷ 32 ∷ []

abbrev is_text : List ℕ
is_text = 32 ∷ 61 ∷ 32 ∷ []

abbrev end_text : List ℕ
end_text = 59 ∷ []

abbrev empty_array_text : List ℕ
empty_array_text = 32 ∷ 61 ∷ 32 ∷ 91 ∷ 93 ∷ 59 ∷ []

abbrev push_text : List ℕ
push_text = 46 ∷ 112 ∷ 117 ∷ 115 ∷ 104 ∷ 40 ∷ []

abbrev close_text : List ℕ
close_text = 41 ∷ 59 ∷ []

abbrev try_text : List ℕ
try_text = 116 ∷ 114 ∷ 121 ∷ 32 ∷ 123 ∷ 32 ∷ []

abbrev new_text : List ℕ
new_text = 110 ∷ 101 ∷ 119 ∷ 32 ∷ []

abbrev apply_text : List ℕ
apply_text = 46 ∷ 97 ∷ 112 ∷ 112 ∷ 108 ∷ 121 ∷ []

abbrev catch_text : List ℕ
catch_text =
    32 ∷ 125 ∷ 32 ∷ 99 ∷ 97 ∷ 116 ∷ 99 ∷ 104 ∷ 32 ∷ 40 ∷ 101 ∷ 41 ∷ 32 ∷ 123 ∷ 32 ∷ 125 ∷ []

abbrev comma_text : List ℕ
comma_text = 44 ∷ 32 ∷ []

abbrev require_text : List ℕ
require_text = 32 ∷ 61 ∷ 32 ∷ 114 ∷ 101 ∷ 113 ∷ 117 ∷ 105 ∷ 114 ∷ 101 ∷ 40 ∷ 39 ∷ []

abbrev require_end_text : List ℕ
require_end_text = 39 ∷ 41 ∷ 59 ∷ []

abbrev init_text : List ℕ
init_text = 114 ∷ 101 ∷ 113 ∷ 117 ∷ 105 ∷ 114 ∷ 101 ∷ 40 ∷ 39 ∷ []

abbrev init_end_text : List ℕ
init_end_text = 47 ∷ 99 ∷ 97 ∷ 102 ∷ 39 ∷ 41 ∷ 46 ∷ 105 ∷ 110 ∷ 105 ∷ 116 ∷ 40 ∷ 41 ∷ 59 ∷ []

abbrev undefined_text : List ℕ
undefined_text = 117 ∷ 110 ∷ 100 ∷ 101 ∷ 102 ∷ 105 ∷ 110 ∷ 101 ∷ 100 ∷ []

abbrev null_text : List ℕ
null_text = 110 ∷ 117 ∷ 108 ∷ 108 ∷ []

abbrev true_text : List ℕ
true_text = 116 ∷ 114 ∷ 117 ∷ 101 ∷ []

abbrev false_text : List ℕ
false_text = 102 ∷ 97 ∷ 108 ∷ 115 ∷ 101 ∷ []

abbrev nan_text : List ℕ
nan_text = 78 ∷ 97 ∷ 78 ∷ []

abbrev infinity_text : List ℕ
infinity_text = 73 ∷ 110 ∷ 102 ∷ 105 ∷ 110 ∷ 105 ∷ 116 ∷ 121 ∷ []

pub data Statement : Type 0 where
  variable_def : ℕ → Value → Statement
  empty_array_variable_def : ℕ → Statement
  -- The array and the element.
  array_push : ℕ → ℕ → Statement
  -- The variable of the result, the function, whether it is a constructor, the receiver, the arguments.
  function_call : ℕ → List ℕ → Bool → Option ℕ → List ℕ → Statement
  require_module : List ℕ → Statement
  main_function : Statement

module _ (library : Library) where
  open library use {to_string, print_integer, print_float, is_print, lib_dir}

  abbrev pub escape_printed : ℕ → List ℕ
  escape_printed ch =
      if ch == 34
      then 92 ∷ 34 ∷ []
      else (if ch == 39 then 92 ∷ 39 ∷ [] else (if ch == 92 then 92 ∷ 92 ∷ [] else ch ∷ []))

  unfoldable pub escape_other : ℕ → Result (List ℕ)
  unfolding to_hex_digit
  escape_other ch =
      let hex = do
        high ← to_hex_digit (char_div ch 16)
        low ← to_hex_digit (char_mod ch 16)
        ok (92 ∷ 120 ∷ high ∷ low ∷ [])
      in if ch == 10
        then ok (92 ∷ 110 ∷ [])
        else (if ch == 9
            then ok (92 ∷ 116 ∷ [])
            else (if ch == 13 then ok (92 ∷ 114 ∷ []) else hex))

  unfoldable pub escape_char : ℕ → Result (List ℕ)
  unfolding escape_other
  escape_char ch = if is_print ch then ok (escape_printed ch) else escape_other ch

  unfoldable pub escape_string : List ℕ → Result (List ℕ)
  unfolding escape_char
  escape_string [] = ok []
  escape_string (ch ∷ s) = do text ← escape_char ch; rest ← escape_string s; ok (text ++ rest)

  unfoldable pub float_literal : ℕ → List ℕ
  unfolding fpclassify
  float_literal d = elim (fpclassify d) [
    | FloatClass.fp_nan ↦ nan_text
    | FloatClass.fp_infinite ↦ (if ltb d (2 ^ 63) then [] else 45 ∷ []) ++ infinity_text
    | FloatClass.fp_other ↦ print_float d
  ]

  -- WriteLiteralValue.
  unfoldable pub literal : CafStore → Value → Result (List ℕ)
  unfolding escape_string float_literal CafStore.get_function
  literal store Value.undefined = ok undefined_text
  literal store Value.null = ok null_text
  literal store (Value.boolean b) = ok (if b then true_text else false_text)
  literal store (Value.integer n) = ok (print_integer n)
  literal store (Value.float d) = ok (float_literal d)
  literal store (Value.string s) = do text ← escape_string s; ok (39 ∷ text ++ 39 ∷ [])
  literal store (Value.function f) = do function ← CafStore.get_function f store; ok function.name
  literal store (Value.array a) = throw assertion
  literal store (Value.placeholder j) = throw assertion

  abbrev pub variable_name : ℕ → List ℕ
  variable_name k = 95 ∷ to_string k

  -- The arguments, with a comma before each but the first.
  abbrev pub argument_list : Bool → List ℕ → List ℕ
  argument_list first [] = []
  argument_list first (k ∷ ks) =
      (if first then [] else comma_text) ++ variable_name k ++ argument_list false ks

  -- A constructor call has no receiver.
  abbrev pub receiver_of : Bool → Option ℕ → Option ℕ
  receiver_of true receiver = none
  receiver_of false receiver = receiver

  abbrev pub applied_text : Option ℕ → List ℕ → List ℕ
  applied_text none args = open_text ++ argument_list true args
  applied_text (some r) args =
      apply_text ++ open_text ++ variable_name r ++ argument_list false args

  unfoldable pub function_call_text : ℕ → List ℕ → Bool → Option ℕ → List ℕ → List ℕ
  function_call_text k function ctor receiver args =
      let_text
      ++ variable_name k
      ++ end_text
      ++ try_text
      ++ variable_name k
      ++ is_text
      ++ (if ctor then new_text else [])
      ++ function
      ++ applied_text (receiver_of ctor receiver) args
      ++ close_text
      ++ catch_text

  -- What each Write method writes, and EnterMainFunction.
  unfoldable pub statement_text : CafStore → Statement → Result (List ℕ)
  unfolding literal function_call_text
  statement_text store (Statement.variable_def k v) = do
    text ← literal store v
    ok (let_text ++ variable_name k ++ is_text ++ text ++ end_text)
  statement_text store (Statement.empty_array_variable_def k) =
      ok (let_text ++ variable_name k ++ empty_array_text)
  statement_text store (Statement.array_push a e) =
      ok (variable_name a ++ push_text ++ variable_name e ++ close_text)
  statement_text store (Statement.function_call k function ctor receiver args) =
      ok (function_call_text k function ctor receiver args)
  statement_text store (Statement.require_module m) =
      ok (let_text ++ m ++ require_text ++ m ++ require_end_text)
  statement_text store Statement.main_function = ok (init_text ++ lib_dir ++ init_end_text)
