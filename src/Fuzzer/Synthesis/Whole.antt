-- ===== src/Fuzzer/Synthesis/Whole.antt =====
-- Synthesis of src/Fuzzer/TestCaseSynthesiser.cpp, over all the calls of a test case.
use caf.Prelude.{ℕ, suc, ◌+◌, ◌<◌, ◌≡◌, refl, subst, List, [], ◌∷◌, length, arith}
use caf.Infrastructure.Result.{Succeeds, returns_ok, Succeeds->>=}
use caf.Basic.CafStore
use caf.Basic.CafStore.{CafStore, Function}
use caf.Fuzzer.Mutator.Fixer.Once.{free_below, free_below-le}
use caf.Fuzzer.Synthesis.{Library, Statement, statement_text}
use caf.Fuzzer.Synthesis.Program.{Program, Step}
use caf.Fuzzer.Synthesis.Writes.{visited}
use caf.Fuzzer.Synthesis.Runs.{IsMemory, IsBuilder, returned}
use caf.Fuzzer.Synthesis.Builder.{
  Memory, SynthesisBuilder, PointerCall, new_synthesis_builder, write, synthesis_constant,
  synthesis_call, synthesis_calls, synthesis,
}
use caf.Fuzzer.Synthesis.Constants.{synthesis_constant-Gives}
use caf.Fuzzer.Synthesis.Calls.{
  CallReady, CallsReady, synthesis_args-Next, synthesis_receiver-Next, ReceiverBelow-mono,
  synthesis_function_call-IsBuilder,
}

module _ (library : Library) (store : CafStore) (level : ℕ → ℕ) (memory : Memory)
    (ready : IsMemory library store level memory) where
  abbrev all_fuel : ℕ
  all_fuel = suc (length memory)

  enough :
      (b : SynthesisBuilder)
      → free_below (length memory) (visited b.synthesised_variables) < all_fuel
  enough b = omega (arith, free_below-le (length memory) (visited b.synthesised_variables))

  synthesis_call-IsBuilder :
      (i : ℕ) (call : PointerCall) (b : SynthesisBuilder)
      → IsBuilder library store i b
      → CallReady store level memory i call
      → Succeeds
          (IsBuilder library store (i + 1))
          (synthesis_call library store (synthesis_constant library store all_fuel memory) call b)
  unfolding synthesis_call
  synthesis_call-IsBuilder i call b h (this_reached, args_reached, (function, found)) =
      let constant = synthesis_constant library store all_fuel memory in
      let gives = synthesis_constant-Gives library store level memory ready i all_fuel in
      Succeeds->>= _ (IsBuilder library store (i + 1))
        (synthesis_receiver-Next library store level memory ready i all_fuel constant gives
          call.this b h this_reached (enough b))
        λ (r, b₁) (r_lt, n₁).
          Succeeds->>= _ (IsBuilder library store (i + 1))
            (synthesis_args-Next library store level memory ready i all_fuel constant gives
              call.args b₁ n₁.builder args_reached (enough b₁))
            λ (args, b₂) (args_lt, n₂).
              Succeeds->>= _ (IsBuilder library store (i + 1))
                (returned (CafStore.get_function call.func_id store) function found)
                λ fn same.
                  synthesis_function_call-IsBuilder library store i fn.name call.ctor r args b₂
                    n₂.builder
                    (ReceiverBelow-mono library store i b₁.var_id b₂.var_id r n₂.later r_lt) args_lt

  synthesis_calls-IsBuilder :
      (i j : ℕ) (calls : List PointerCall) (b : SynthesisBuilder)
      → IsBuilder library store i b
      → CallsReady store level memory i calls
      → j ≡ i + length calls
      → Succeeds
          (IsBuilder library store j)
          (synthesis_calls library store (synthesis_constant library store all_fuel memory) calls b)
  unfolding synthesis_calls
  synthesis_calls-IsBuilder i j [] b h all e =
      let same : i ≡ j = omega (arith, e) in
      returns_ok b (subst (λ m. IsBuilder library store m b) same h)
  synthesis_calls-IsBuilder i j (call ∷ calls) b h all e =
      Succeeds->>= _ (IsBuilder library store j) (synthesis_call-IsBuilder i call b h all.0)
        λ b' h'. synthesis_calls-IsBuilder (i + 1) j calls b' h' all.1 (omega (arith, e))

  entered :
      Succeeds
        (IsBuilder library store 0)
        (write library store Statement.main_function new_synthesis_builder)
  unfolding write statement_text new_synthesis_builder
  entered = returns_ok _ (record {
    call_variables = [];
    program =
        Program.extended 0 0 [] [] [] [] [] _ Statement.main_function Program.empty
          (Step.enters 0 [] []) refl;
    variables = tt;
    indexes = tt;
    returns = tt;
    count = refl;
  })

  -- Where the calls are of functions of the store and their values have literals and refer only to
  -- earlier calls and to objects that exist, the synthesis returns, whatever the arrays' sharing and
  -- their cycles: the output is the texts of statements, in which every variable is defined once and
  -- before it is used, and every module is required once and before a function of it is used; and what
  -- the builder has as the variable of each call is the variable that the statement of that call
  -- defines.
  pub synthesis-IsBuilder :
      (calls : List PointerCall)
      → CallsReady store level memory 0 calls
      → Succeeds
          (IsBuilder library store (length calls))
          (synthesis library store memory calls new_synthesis_builder)
  unfolding synthesis
  synthesis-IsBuilder calls all =
      Succeeds->>= _ (IsBuilder library store (length calls)) entered
        λ b h. synthesis_calls-IsBuilder 0 (length calls) calls b h all (omega arith)
