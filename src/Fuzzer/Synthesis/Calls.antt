-- ===== src/Fuzzer/Synthesis/Calls.antt =====
-- The programs that src/Fuzzer/TestCaseSynthesiser.cpp writes for the calls of a test case.
use caf.Prelude.{
  ℕ, ◌+◌, ◌-◌, ◌≤◌, ◌<◌, ◌≡◌, refl, sym, subst, Bool, Option, none, some, List, [], ◌∷◌, ◌++◌,
  length, All, length-append, arith,
}
use caf.Infrastructure.Result.{Result, ok, Succeeds, returns_ok, Succeeds->>=, Succeeds-imp}
use caf.Basic.CafStore
use caf.Basic.CafStore.{CafStore, Function}
use caf.Fuzzer.Mutator.Fixer.Once.{free_below}
use caf.Fuzzer.Synthesis.{Library, Statement, statement_text}
use caf.Fuzzer.Synthesis.Builder.{Memory, SynthesisBuilder, get_next_variable_name, create_variable}
use caf.Fuzzer.Synthesis.Program.{Program, Step}
use caf.Fuzzer.Synthesis.Writes.{
  visited, Written, Written-trans, write-Written, require_for-Written,
}
use caf.Fuzzer.Synthesis.Runs.{
  Names-snoc, get_elem?-last, IsMemory, IsBuilder, Next, Next-refl, Next-trans,
}
use caf.Fuzzer.Synthesis.Runs.{extended_variables, grown, grown_indexes}
use caf.Fuzzer.Synthesis.Program.{ReceiverBelow}
use caf.Fuzzer.Synthesis.Builder.{
  PointerCall, synthesis_receiver, synthesis_args, write_function_call_statement,
  synthesis_function_call,
}
use caf.Fuzzer.Synthesis.Constants.{Reached, Gives, fewer-Next}

module _ (store : CafStore) (level : ℕ → ℕ) (memory : Memory) where
  abbrev pub ThisReached : ℕ → Option ℕ → Type 0
  ThisReached i none = Unit {0}
  ThisReached i (some p) = (p < length memory) × (level p ≤ i)

  -- A call of an existing function, whose values refer to earlier calls.
  abbrev pub CallReady : ℕ → PointerCall → Type 0
  CallReady i call =
      ThisReached i call.this
      × All (λ p. (p < length memory) × (level p ≤ i)) call.args
      × ((function : Function) × (CafStore.get_function call.func_id store ≡ ok function))

  -- The calls from the one of index `i` on.
  abbrev pub CallsReady : ℕ → List PointerCall → Type 0
  CallsReady i [] = Unit {0}
  CallsReady i (call ∷ calls) = CallReady i call × CallsReady (i + 1) calls

module _ (library : Library) (store : CafStore) (level : ℕ → ℕ) (memory : Memory)
    (ready : IsMemory library store level memory) (i u : ℕ)
    (constant : ℕ → SynthesisBuilder → Result (ℕ × SynthesisBuilder))
    (gives : Gives library store level memory ready i u constant) where
  pub synthesis_args-Next :
      (ps : List ℕ) (b : SynthesisBuilder)
      → IsBuilder library store i b
      → All (Reached library store level memory ready i) ps
      → free_below (length memory) (visited b.synthesised_variables) < u
      → Succeeds
          (λ (ks, b'). All (λ k. k < b'.var_id) ks × Next library store i b b')
          (synthesis_args library store constant ps b)
  unfolding synthesis_args
  synthesis_args-Next [] b h all fewer = returns_ok _ (tt, Next-refl library store i b h)
  synthesis_args-Next (p ∷ ps) b h all fewer =
      Succeeds->>= _ _ (gives p b h all.0 fewer) λ (k, b₁) (k_lt, n₁).
        Succeeds->>= _ _
          (synthesis_args-Next ps b₁ n₁.builder all.1
            (fewer-Next library store level memory ready i u n₁ fewer))
          λ (ks, b₂) (ks_lt, n₂).
            returns_ok (k ∷ ks, b₂)
              ((omega (arith, k_lt, n₂.later), ks_lt), Next-trans library store i n₁ n₂)

  pub synthesis_receiver-Next :
      (this : Option ℕ) (b : SynthesisBuilder)
      → IsBuilder library store i b
      → ThisReached store level memory i this
      → free_below (length memory) (visited b.synthesised_variables) < u
      → Succeeds
          (λ (r, b'). ReceiverBelow library store b'.var_id r × Next library store i b b')
          (synthesis_receiver library store constant this b)
  unfolding synthesis_receiver
  synthesis_receiver-Next none b h reached fewer = returns_ok _ (tt, Next-refl library store i b h)
  synthesis_receiver-Next (some p) b h reached fewer =
      Succeeds->>= _ _ (gives p b h reached fewer)
        λ (k, b₁) (k_lt, n₁). returns_ok (some k, b₁) (k_lt, n₁)

module _ (library : Library) (store : CafStore) (i : ℕ) where
  pub ReceiverBelow-mono :
      (n n' : ℕ) (r : Option ℕ)
      → n ≤ n'
      → ReceiverBelow library store n r
      → ReceiverBelow library store n' r
  ReceiverBelow-mono n n' none le h = tt
  ReceiverBelow-mono n n' (some r) le h = omega (arith, le, h)

  -- The statement of a call, in a builder whose program has `n` variables so far.
  function_call-Written :
      (n : ℕ) (function : List ℕ) (ctor : Bool) (r : Option ℕ) (args : List ℕ)
      (b : SynthesisBuilder) (ks : List ℕ)
      → Program library store n b.imported ks b.output
      → ReceiverBelow library store n r
      → All (λ k. k < n) args
      → Succeeds
          (Written library store (n + 1) (ks ++ n ∷ []) b)
          (write_function_call_statement library store n function ctor r args b)
  unfolding write_function_call_statement statement_text
  function_call-Written n function ctor r args b ks program r_lt args_lt =
      Succeeds->>= _ (Written library store (n + 1) (ks ++ n ∷ []) b)
        (require_for-Written library store function b n ks program)
        λ b' (w, required).
          Succeeds-imp _ _
            (write-Written library store (Statement.function_call n function ctor r args) b' n
              (n + 1) ks (ks ++ n ∷ []) _ refl w.program
              (Step.calls n b'.imported ks function ctor r args required r_lt args_lt))
            (λ b'' w'. Written-trans library store w w')

  pub synthesis_function_call-IsBuilder :
      (function : List ℕ) (ctor : Bool) (r : Option ℕ) (args : List ℕ) (b : SynthesisBuilder)
      → IsBuilder library store i b
      → ReceiverBelow library store b.var_id r
      → All (λ k. k < b.var_id) args
      → Succeeds
          (IsBuilder library store (i + 1))
          (synthesis_function_call library store function ctor r args b)
  unfolding synthesis_function_call get_next_variable_name create_variable
  synthesis_function_call-IsBuilder function ctor r args b h r_lt args_lt =
      Succeeds->>= _ (IsBuilder library store (i + 1))
        (function_call-Written b.var_id function ctor r args (record b { var_id = b.var_id + 1 })
          h.call_variables h.program r_lt args_lt)
        λ b₂ w.
          let n = b.var_id in
          let longer = length-append b₂.variables (n ∷ []) in
          returns_ok _ (record {
            call_variables = h.call_variables ++ n ∷ [];
            program = rw w.var_id w.program;
            variables =
                rw (w.var_id, w.variables)
                  (extended_variables library store n b.variables h.variables);
            indexes = grown_indexes library store n b₂.variables b₂.synthesised_variables (
                subst (λ m. All (λ e. e.1 < length b₂.variables) m) (sym w.synthesised)
                  (rw w.variables h.indexes));
            returns =
                Names-snoc library store (b₂.variables ++ n ∷ [])
                  (length (b₂.variables ++ n ∷ []) - 1) n b₂.func_ret_variables h.call_variables
                  (grown library store n b₂.variables b₂.func_ret_variables h.call_variables
                    (rw (w.returns, w.variables) h.returns))
                  (get_elem?-last n b₂.variables);
            count = omega (arith, length-append h.call_variables (n ∷ []), h.count);
          })
