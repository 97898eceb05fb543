-- ===== src/Fuzzer/SynthesisTests.antt =====
-- The synthesis of programs by src/Fuzzer/TestCaseSynthesiser.cpp and the builders on concrete inputs.
use caf.Prelude.{
  List, ◌++◌, ℕ, zero, suc, ◌+◌, ◌≡◌, false, ◌&&◌, none, some, List, [], ◌∷◌, ◌++◌, refl, arith,
  leb, subst, some-injective,
}
use caf.Infrastructure.Result.{Result, Succeeds, ok, throw, assertion, ◌>>=◌}
use caf.Basic.CafStore.{CafStore, new_caf_store, load, get_function}
use caf.Fuzzer.Value.{Value}
use caf.Fuzzer.Synthesis.{Library, Statement, escape_string, statement_text}
use caf.Fuzzer.Synthesis.Strings.{
  Position, read_literal, read_literal-escape_string, escape_string-throw,
}
use caf.Fuzzer.Synthesis.Builder.{Object, Memory, PointerCall, new_synthesis_builder, synthesis}
use caf.Fuzzer.Synthesis.Runs.{IsMemory, IsBuilder, ObjectReady}
use caf.Fuzzer.Synthesis.Calls.{CallsReady}
use caf.Fuzzer.Synthesis.Whole.{synthesis-IsBuilder}

abbrev ascii : Library
ascii = record {
  to_string = λ k. (48 + k) ∷ [];
  print_integer = λ n. (48 + n) ∷ [];
  print_float = λ d. 48 ∷ [];
  is_print = λ c. leb 32 c && leb c 126;
  is_lower = λ c. leb 97 c && leb c 122;
  lib_dir = [];
}

abbrev vm_functions : CafStore
vm_functions = load ((118 ∷ 109 ∷ []) ∷ (118 ∷ 109 ∷ 46 ∷ 114 ∷ []) ∷ []) new_caf_store

-- An array that holds itself, a string, and what the first call returned.
abbrev objects : Memory
objects =
    Object.array (0 ∷ 1 ∷ 2 ∷ [])
    ∷ Object.single (Value.string (39 ∷ 7 ∷ []))
    ∷ Object.placeholder 0
    ∷ []

abbrev all_one : ℕ → ℕ
all_one p = 1

objects-IsMemory : IsMemory ascii vm_functions all_one objects
unfolding caf.Fuzzer.Synthesis.literal escape_string
objects-IsMemory zero o e =
    subst (ObjectReady ascii vm_functions all_one 3 1) (some-injective _ _ e)
      ((omega arith, omega arith), ((omega arith, omega arith), ((omega arith, omega arith), tt)))
objects-IsMemory (suc zero) o e =
    subst (ObjectReady ascii vm_functions all_one 3 1) (some-injective _ _ e) (_, refl)
objects-IsMemory (suc (suc zero)) o e =
    subst (ObjectReady ascii vm_functions all_one 3 1) (some-injective _ _ e) (omega arith)
objects-IsMemory (suc (suc (suc p))) o e = absurd (cc e)

abbrev first_call : PointerCall
first_call = record { func_id = 0; this = none; ctor = false; args = [] }

abbrev second_call : PointerCall
second_call = record { func_id = 1; this = some 0; ctor = false; args = 0 ∷ 2 ∷ [] }

pointer_calls-CallsReady : CallsReady vm_functions all_one objects 0 (first_call ∷ second_call ∷ [])
unfolding load new_caf_store get_function
pointer_calls-CallsReady = (
  (tt, tt, (_, refl)),
  (
    (
      (omega arith, omega arith),
      ((omega arith, omega arith), ((omega arith, omega arith), tt)),
      (_, refl),
    ),
    tt,
  ),
)

synthesis-IsBuilder_example :
    Succeeds
      (IsBuilder ascii vm_functions 2)
      (synthesis ascii vm_functions objects (first_call ∷ second_call ∷ []) new_synthesis_builder)
synthesis-IsBuilder_example =
    synthesis-IsBuilder ascii vm_functions all_one objects objects-IsMemory
      (first_call ∷ second_call ∷ []) pointer_calls-CallsReady

abbrev texts : List Statement → Result (List ℕ)
texts [] = ok []
texts (s ∷ ss) = do text ← statement_text ascii vm_functions s; rest ← texts ss; ok (text ++ rest)

-- The module is required just before the first statement that needs it.
synthesis_statements :
    (synthesis ascii vm_functions objects (first_call ∷ second_call ∷ []) new_synthesis_builder
      >>= λ b. ok b.output)
    ≡ texts (
        Statement.main_function
        ∷ Statement.function_call 0 (118 ∷ 109 ∷ []) false none []
        ∷ Statement.empty_array_variable_def 1
        ∷ Statement.array_push 1 1
        ∷ Statement.variable_def 2 (Value.string (39 ∷ 7 ∷ []))
        ∷ Statement.array_push 1 2
        ∷ Statement.array_push 1 0
        ∷ Statement.require_module (118 ∷ 109 ∷ [])
        ∷ Statement.function_call 3 (118 ∷ 109 ∷ 46 ∷ 114 ∷ []) false (some 1) (1 ∷ 0 ∷ [])
        ∷ [])
unfolding load new_caf_store get_function synthesis new_synthesis_builder statement_text
synthesis_statements = refl

-- let _2;try { _2 = f.apply(_0, _1); } catch (e) { }
function_call_statement :
    statement_text ascii vm_functions (Statement.function_call 2 (102 ∷ []) false (some 0) (1 ∷ []))
    ≡ ok (
        108 ∷ 101 ∷ 116 ∷ 32 ∷ 95 ∷ 50 ∷ 59 ∷ 116 ∷ 114 ∷ 121 ∷ 32 ∷ 123 ∷ 32 ∷ 95 ∷ 50 ∷ 32 ∷ 61
        ∷ 32 ∷ 102 ∷ 46 ∷ 97 ∷ 112 ∷ 112 ∷ 108 ∷ 121 ∷ 40 ∷ 95 ∷ 48 ∷ 44 ∷ 32 ∷ 95 ∷ 49 ∷ 41 ∷ 59
        ∷ 32 ∷ 125 ∷ 32 ∷ 99 ∷ 97 ∷ 116 ∷ 99 ∷ 104 ∷ 32 ∷ 40 ∷ 101 ∷ 41 ∷ 32 ∷ 123 ∷ 32 ∷ 125 ∷ [])
unfolding statement_text
function_call_statement = refl

read_literal-escape_string_example :
    Succeeds
      (λ text.
        (rest : List ℕ)
        → read_literal Position.plain (text ++ 39 ∷ rest) ≡ some (39 ∷ 92 ∷ 10 ∷ 7 ∷ 65 ∷ [], rest))
      (escape_string ascii (39 ∷ 92 ∷ 10 ∷ 7 ∷ 65 ∷ []))
read_literal-escape_string_example =
    read_literal-escape_string ascii (λ c h. ground (arith, h)) (39 ∷ 92 ∷ 10 ∷ 7 ∷ 65 ∷ [])
      (omega arith, (omega arith, (omega arith, (omega arith, (omega arith, tt)))))

-- An e with an acute accent, in UTF-8.
escape_string-throw_example : escape_string ascii (99 ∷ 97 ∷ 102 ∷ 195 ∷ 169 ∷ []) ≡ throw assertion
escape_string-throw_example =
    escape_string-throw ascii (λ c h. ground (arith, h)) (99 ∷ 97 ∷ 102 ∷ []) (169 ∷ []) 195
      (omega arith, (omega arith, (omega arith, tt))) (omega arith) (omega arith) refl
