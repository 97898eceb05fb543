-- ===== src/Fuzzer/Synthesis/Program.antt =====
-- The programs that src/Fuzzer/SynthesisBuilder.cpp may write: every variable is defined before it is
-- used, and once; every module is required before a function of it is used, and once.
use caf.Prelude.{ℕ, ◌+◌, ◌<◌, ◌≡◌, Bool, true, false, Option, none, some, List, [], ◌∷◌, ◌++◌, All}
use caf.Infrastructure.Result.{ok}
use caf.Basic.CafStore
use caf.Basic.CafStore.{CafStore, Function}
use caf.Fuzzer.Value.{Value}
use caf.Fuzzer.Synthesis.{Library, Statement, statement_text}
use caf.Fuzzer.Synthesis.Modules.{module_name, is_in_module, is_native_module}

module _ (library : Library) (store : CafStore) where
  -- A function of a module needs the module.
  abbrev pub Required : List (List ℕ) → List ℕ → Type 0
  Required ms function =
      is_in_module library function ≡ true → is_native_module (module_name function) ms ≡ true

  abbrev pub ValueRequired : List (List ℕ) → Value → Type 0
  ValueRequired ms (Value.function f) =
      (function : Function)
      → CafStore.get_function f store ≡ ok function
      → Required ms function.name
  ValueRequired ms v = Unit {0}

  abbrev pub ReceiverBelow : ℕ → Option ℕ → Type 0
  ReceiverBelow n none = Unit {0}
  ReceiverBelow n (some r) = r < n

  -- A statement where the variables below `n` are defined, the modules `ms` are required and the calls
  -- so far have the variables `ks` for their results, and what there is after it.
  pub data Step : ℕ → List (List ℕ) → List ℕ → Statement → ℕ → List (List ℕ) → List ℕ → Type 0 where
    defines_value :
        (n : ℕ) (ms : List (List ℕ)) (ks : List ℕ) (v : Value)
        → ValueRequired ms v
        → Step n ms ks (Statement.variable_def n v) (n + 1) ms ks
    defines_array :
        (n : ℕ) (ms : List (List ℕ)) (ks : List ℕ)
        → Step n ms ks (Statement.empty_array_variable_def n) (n + 1) ms ks
    pushes :
        (n a e : ℕ) (ms : List (List ℕ)) (ks : List ℕ)
        → a < n
        → e < n
        → Step n ms ks (Statement.array_push a e) n ms ks
    calls :
        (n : ℕ) (ms : List (List ℕ)) (ks : List ℕ) (function : List ℕ) (ctor : Bool)
        (receiver : Option ℕ) (args : List ℕ)
        → Required ms function
        → ReceiverBelow n receiver
        → All (λ a. a < n) args
        → Step n ms ks
            (Statement.function_call n function ctor receiver args)
            (n + 1)
            ms
            (ks ++ n ∷ [])
    requires :
        (n : ℕ) (ms : List (List ℕ)) (ks : List ℕ) (m : List ℕ)
        → is_native_module m ms ≡ false
        → Step n ms ks (Statement.require_module m) n (m ∷ ms) ks
    enters :
        (n : ℕ) (ms : List (List ℕ)) (ks : List ℕ) → Step n ms ks Statement.main_function n ms ks

  -- A text is the texts of statements that lead from nothing to `n` variables, the modules `ms` and the
  -- variables `ks` of the calls' results.
  pub data Program : ℕ → List (List ℕ) → List ℕ → List ℕ → Type 0 where
    empty : Program 0 [] [] []
    extended :
        (n n' : ℕ) (ms ms' : List (List ℕ)) (ks ks' output text : List ℕ) (s : Statement)
        → Program n ms ks output
        → Step n ms ks s n' ms' ks'
        → statement_text library store s ≡ ok text
        → Program n' ms' ks' (output ++ text)
