-- ===== src/Fuzzer/Synthesis/Builder.antt =====
-- src/Fuzzer/SynthesisBuilder.cpp and src/Fuzzer/TestCaseSynthesiser.cpp, over the builder of
-- src/Fuzzer/NodejsSynthesisBuilder.cpp.
use caf.Prelude.{
  ℕ, zero, suc, ◌+◌, ◌-◌, Bool, Option, none, some, List, [], ◌∷◌, ◌++◌, length, get_elem?, lookup,
  if◌then◌else◌,
}
use caf.Infrastructure.Result.{Result, ok, out_of_fuel, out_of_range, null_pointer, or_throw, ◌>>=◌}
use caf.Basic.CafStore
use caf.Basic.CafStore.{CafStore}
use caf.Fuzzer.Value.{Value}
use caf.Fuzzer.Synthesis.{Library, Statement, statement_text}
use caf.Fuzzer.Synthesis.Modules.{module_name, is_in_module, is_native_module}

-- A value by its pointer, since a value is defined once for each object that holds it.
pub data Object : Type 0 where
  single : Value → Object
  array : List ℕ → Object
  placeholder : ℕ → Object

abbrev pub Memory : Type 0
Memory = List Object

pub record PointerCall : Type 0 where
  pub func_id : ℕ
  pub this : Option ℕ
  pub ctor : Bool
  pub args : List ℕ

pub record SynthesisBuilder : Type 0 where
  -- The numbers of the variables' names.
  pub variables : List ℕ
  pub output : List ℕ
  pub synthesised_variables : List (ℕ × ℕ)
  pub func_ret_variables : List ℕ
  pub var_id : ℕ
  pub imported : List (List ℕ)

unfoldable pub new_synthesis_builder : SynthesisBuilder
new_synthesis_builder = record {
  variables = [];
  output = [];
  synthesised_variables = [];
  func_ret_variables = [];
  var_id = 0;
  imported = [];
}

unfoldable pub get_next_variable_name : SynthesisBuilder → ℕ × SynthesisBuilder
get_next_variable_name b = (b.var_id, record b { var_id = b.var_id + 1 })

unfoldable pub create_variable : ℕ → SynthesisBuilder → SynthesisBuilder
create_variable k b = record b { variables = b.variables ++ k ∷ [] }

unfoldable pub set_last_synthesised_value : ℕ → SynthesisBuilder → SynthesisBuilder
set_last_synthesised_value p b = record b {
  synthesised_variables = (p, length b.variables - 1) ∷ b.synthesised_variables;
}

unfoldable pub get_ret_value_variable : ℕ → SynthesisBuilder → Result ℕ
get_ret_value_variable j b = do
  i ← or_throw out_of_range (get_elem? b.func_ret_variables j)
  or_throw out_of_range (get_elem? b.variables i)

module _ (library : Library) (store : CafStore) where
  unfoldable pub write : Statement → SynthesisBuilder → Result SynthesisBuilder
  unfolding statement_text
  write s b = do text ← statement_text library store s; ok (record b { output = b.output ++ text })

  unfoldable pub write_require_statement : List ℕ → SynthesisBuilder → Result SynthesisBuilder
  unfolding write
  write_require_statement m b =
      let written = write (Statement.require_module m) b in
      if is_native_module m b.imported
      then ok b
      else (written >>= λ b'. ok (record b' { imported = m ∷ b'.imported }))

  -- The require statement before the use of a function of a module.
  unfoldable pub require_for : List ℕ → SynthesisBuilder → Result SynthesisBuilder
  unfolding write_require_statement module_name is_in_module
  require_for function b =
      if is_in_module library function
      then write_require_statement (module_name function) b
      else ok b

  unfoldable pub write_variable_def : ℕ → Value → SynthesisBuilder → Result SynthesisBuilder
  unfolding require_for write CafStore.get_function
  write_variable_def k (Value.function f) b = do
    function ← CafStore.get_function f store
    b' ← require_for function.name b
    write (Statement.variable_def k (Value.function f)) b'
  write_variable_def k v b = write (Statement.variable_def k v) b

  unfoldable pub write_function_call_statement :
      ℕ → List ℕ → Bool → Option ℕ → List ℕ → SynthesisBuilder → Result SynthesisBuilder
  unfolding require_for write
  write_function_call_statement k function ctor receiver args b = do
    b' ← require_for function b
    write (Statement.function_call k function ctor receiver args) b'

  -- The loop over the elements of an array, which is the variable `k`.
  unfoldable pub push_elements :
      (ℕ → SynthesisBuilder → Result (ℕ × SynthesisBuilder))
      → ℕ
      → List ℕ
      → SynthesisBuilder
      → Result SynthesisBuilder
  unfolding write
  push_elements constant k [] b = ok b
  push_elements constant k (p ∷ ps) b = constant p b >>= λ (e, b₁).
      write (Statement.array_push k e) b₁ >>= λ b₂. push_elements constant k ps b₂

  -- A value that has no variable yet.
  unfoldable pub define_object :
      (ℕ → SynthesisBuilder → Result (ℕ × SynthesisBuilder))
      → ℕ
      → Object
      → SynthesisBuilder
      → Result (ℕ × SynthesisBuilder)
  unfolding get_ret_value_variable get_next_variable_name create_variable set_last_synthesised_value
      push_elements write_variable_def write
  define_object constant p (Object.placeholder j) b = get_ret_value_variable j b >>= λ k. ok (k, b)
  define_object constant p (Object.array ps) b =
      let (k, b₁) = get_next_variable_name b in
      let b₂ = set_last_synthesised_value p (create_variable k b₁) in
      write (Statement.empty_array_variable_def k) b₂ >>= λ b₃.
      push_elements constant k ps b₃ >>= λ b₄. ok (k, b₄)
  define_object constant p (Object.single v) b =
      let (k, b₁) = get_next_variable_name b in
      let b₂ = set_last_synthesised_value p (create_variable k b₁) in
      write_variable_def k v b₂ >>= λ b₃. ok (k, b₃)

  -- SynthesisConstant; an array has its variable before its elements are gone through, so that there
  -- are no more levels than objects.
  unfoldable pub synthesis_constant :
      ℕ → Memory → ℕ → SynthesisBuilder → Result (ℕ × SynthesisBuilder)
  unfolding define_object
  synthesis_constant zero memory p b = out_of_fuel
  synthesis_constant (suc f) memory p b = elim (lookup p b.synthesised_variables) [
    | some i ↦ or_throw out_of_range (get_elem? b.variables i) >>= λ k. ok (k, b)
    | none ↦ or_throw null_pointer (get_elem? memory p) >>= λ o.
        define_object (synthesis_constant f memory) p o b
  ]

  unfoldable pub synthesis_args :
      (ℕ → SynthesisBuilder → Result (ℕ × SynthesisBuilder))
      → List ℕ
      → SynthesisBuilder
      → Result (List ℕ × SynthesisBuilder)
  synthesis_args constant [] b = ok ([], b)
  synthesis_args constant (p ∷ ps) b =
      constant p b >>= λ (k, b₁). synthesis_args constant ps b₁ >>= λ (ks, b₂). ok (k ∷ ks, b₂)

  unfoldable pub synthesis_receiver :
      (ℕ → SynthesisBuilder → Result (ℕ × SynthesisBuilder))
      → Option ℕ
      → SynthesisBuilder
      → Result (Option ℕ × SynthesisBuilder)
  synthesis_receiver constant none b = ok (none, b)
  synthesis_receiver constant (some p) b = constant p b >>= λ (k, b₁). ok (some k, b₁)

  unfoldable pub synthesis_function_call :
      List ℕ → Bool → Option ℕ → List ℕ → SynthesisBuilder → Result SynthesisBuilder
  unfolding get_next_variable_name write_function_call_statement create_variable
  synthesis_function_call function ctor receiver args b =
      let (k, b₁) = get_next_variable_name b in
      write_function_call_statement k function ctor receiver args b₁ >>= λ b₂.
      let b₃ = create_variable k b₂ in
      ok
        (record b₃ { func_ret_variables = b₃.func_ret_variables ++ (length b₃.variables - 1) ∷ [] })

  unfoldable pub synthesis_call :
      (ℕ → SynthesisBuilder → Result (ℕ × SynthesisBuilder))
      → PointerCall
      → SynthesisBuilder
      → Result SynthesisBuilder
  unfolding synthesis_receiver synthesis_args synthesis_function_call CafStore.get_function
  synthesis_call constant call b = synthesis_receiver constant call.this b >>= λ (receiver, b₁).
      synthesis_args constant call.args b₁ >>= λ (args, b₂).
      CafStore.get_function call.func_id store >>= λ function.
      synthesis_function_call function.name call.ctor receiver args b₂

  unfoldable pub synthesis_calls :
      (ℕ → SynthesisBuilder → Result (ℕ × SynthesisBuilder))
      → List PointerCall
      → SynthesisBuilder
      → Result SynthesisBuilder
  unfolding synthesis_call
  synthesis_calls constant [] b = ok b
  synthesis_calls constant (call ∷ calls) b =
      synthesis_call constant call b >>= λ b'. synthesis_calls constant calls b'

  -- TestCaseSynthesiser::Synthesis.
  unfoldable pub synthesis : Memory → List PointerCall → SynthesisBuilder → Result SynthesisBuilder
  unfolding write synthesis_constant synthesis_calls
  synthesis memory calls b = write Statement.main_function b >>= λ b'.
      synthesis_calls (synthesis_constant (suc (length memory)) memory) calls b'
