-- ===== src/Fuzzer/Generator/Scoped/Calls.antt =====
-- The scope of the calls and of the test cases that src/Fuzzer/TestCaseGenerator.cpp makes.
use caf.Prelude.{
  ℕ, zero, suc, ◌+◌, ◌≤◌, ◌≡◌, refl, sym, subst, Bool, true, false, List, [], ◌∷◌, ◌++◌, length,
  All-append, arith, length-append, if◌then◌else◌, ltb, lt→ltb,
}
use caf.Infrastructure.Result.{Succeeds, returns_ok, Succeeds->>=, Succeeds-imp}
use caf.Infrastructure.Random.{Platform, next, with_probability}
use caf.Basic.CafStore.{CafStore}
use caf.Basic.CafStore.Entries.{IsValid}
use caf.Fuzzer.TestCase.{
  FunctionCall, TestCase, new_function_call, set_this, set_constructor_call, push_arg,
  new_test_case, set_store_root_entry_index, push_function_call,
}
use caf.Fuzzer.ObjectPool.{ObjectPool}
use caf.Fuzzer.Scope.{InScope, CallInScope, CallsInScope, IsScoped}
use caf.Fuzzer.Scope.Levels.{Agree, InScope-mono, All-InScope-mono, ArraysInScope-Agree}
use caf.Fuzzer.Generation.{GenState, ◌>>=◌, pure}
use caf.Fuzzer.Generator.{
  Options, generate_this_prob, generate_ctor_prob, generate_value, generate_arguments_count,
  push_generated_args, generate_function_call, generate_calls, generate_test_case_from,
}
use caf.Fuzzer.Generator.Runs.{Any, Draws-draw, Draws-next_size}
use caf.Fuzzer.Generator.Values.{HasDescendents, select_function_id-Draws}
use caf.Fuzzer.Generator.Scoped.{InLevel, RunsFrom, RunsFrom->>=, RunsFrom-Draws, RunsFrom-pure}
use caf.Fuzzer.Generator.Scoped.Values.{generate_value-Gives}

module _ (level level' : ℕ → ℕ) (n n' : ℕ) (agree : Agree level level' n) (le : n ≤ n') where
  pub CallInScope-mono :
      (i : ℕ) (call : FunctionCall) → CallInScope level n i call → CallInScope level' n' i call
  CallInScope-mono i call h = (
    InScope-mono level level' n n' i agree le _ h.0,
    All-InScope-mono level level' n n' i agree le call.args h.1,
  )

  pub CallsInScope-mono :
      (i : ℕ) (calls : List FunctionCall)
      → CallsInScope level n i calls
      → CallsInScope level' n' i calls
  CallsInScope-mono i [] h = tt
  CallsInScope-mono i (call ∷ calls) h =
      (CallInScope-mono i call h.0, CallsInScope-mono (i + 1) calls h.1)

module _ (level : ℕ → ℕ) (n : ℕ) where
  pub CallsInScope-append :
      (i j : ℕ) (calls : List FunctionCall) (call : FunctionCall)
      → j ≡ i + length calls
      → CallsInScope level n i calls
      → CallInScope level n j call
      → CallsInScope level n i (calls ++ call ∷ [])
  CallsInScope-append i j [] call e h k =
      let same : j ≡ i = omega arith in (subst (λ m. CallInScope level n m call) same k, tt)
  CallsInScope-append i j (c ∷ calls) call e h k =
      (h.0, CallsInScope-append (i + 1) j calls call (omega arith) h.1 k)

module _ (platform : Platform) (store : CafStore) (opt : Options) (root : ℕ) (valid : IsValid store)
    (below : HasDescendents store root) (level : ℕ → ℕ) (i : ℕ) where
  push_generated_args-RunsFrom :
      (size n : ℕ) (call : FunctionCall)
      → CallInScope level n i call
      → RunsFrom level i n
          (λ n'. CallInScope level n' i)
          (push_generated_args platform (generate_value platform store opt root i) size call)
  unfolding push_generated_args push_arg
  push_generated_args-RunsFrom zero n call h =
      RunsFrom-pure level i _ n call
        (λ n' le. CallInScope-mono level level n n' (λ a lt. refl) le i call h)
  push_generated_args-RunsFrom (suc size) n call h =
      RunsFrom->>= level i (generate_value-Gives platform store opt root valid below level i n)
        λ v n' le v_in.
          let old = CallInScope-mono level level n n' (λ a lt. refl) le i call h in
          push_generated_args-RunsFrom size n' (push_arg v call)
            (old.0, All-append (InScope level n' i) call.args (v ∷ []) old.1 (v_in, tt))

  this-RunsFrom :
      (b : Bool) (n id : ℕ)
      → RunsFrom level i n
          (λ n'. CallInScope level n' i)
          (if b
            then (generate_value platform store opt root i >>= λ v.
                pure (set_this v (new_function_call id)))
            else pure (new_function_call id))
  unfolding set_this new_function_call
  this-RunsFrom true n id =
      RunsFrom->>= level i (generate_value-Gives platform store opt root valid below level i n)
        λ v n' le v_in.
          RunsFrom-pure level i _ n' (set_this v (new_function_call id))
            (λ n'' le'. (InScope-mono level level n' n'' i (λ a lt. refl) le' v v_in, tt))
  this-RunsFrom false n id = RunsFrom-pure level i _ n (new_function_call id) (λ n' le. (tt, tt))

  ctor-CallInScope :
      (b : Bool) (n : ℕ) (call : FunctionCall)
      → CallInScope level n i call
      → CallInScope level n i (if b then set_constructor_call true call else call)
  unfolding set_constructor_call
  ctor-CallInScope true n call h = h
  ctor-CallInScope false n call h = h

  pub generate_function_call-RunsFrom :
      (n : ℕ)
      → RunsFrom level i n
          (λ n'. CallInScope level n' i)
          (generate_function_call platform store opt i root)
  unfolding generate_function_call generate_arguments_count
  generate_function_call-RunsFrom n =
      RunsFrom->>= level i
        (RunsFrom-Draws level i Any n
          (select_function_id-Draws platform store opt root valid below))
        λ id n₁ le₁ t₁.
          RunsFrom->>= level i
            (RunsFrom-Draws level i Any n₁
              (Draws-draw (with_probability platform generate_this_prob)))
            λ with_this n₂ le₂ t₂.
              RunsFrom->>= level i (this-RunsFrom with_this n₂ id) λ call₁ n₃ le₃ call_in.
                RunsFrom->>= level i
                  (RunsFrom-Draws level i Any n₃
                    (Draws-draw (with_probability platform generate_ctor_prob)))
                  λ ctor n₄ le₄ t₄.
                    RunsFrom->>= level i
                      (RunsFrom-Draws level i Any n₄ (Draws-draw (next platform 0 5)))
                      λ size n₅ le₅ t₅.
                        push_generated_args-RunsFrom size n₅
                          (if ctor then set_constructor_call true call₁ else call₁)
                          (ctor-CallInScope ctor n₅ call₁ (
                            CallInScope-mono level level n₃ n₅ (λ a lt. refl) (omega arith) i call₁
                              call_in))

-- The levels when the next call is made: an array that is still to come gets the level of it.
abbrev pub relevel : (ℕ → ℕ) → ℕ → ℕ → ℕ → ℕ
relevel level n i a = if ltb a n then level a else i

pub relevel-Agree : (level : ℕ → ℕ) (n i : ℕ) → Agree level (relevel level n i) n
relevel-Agree level n i a h = rw (lt→ltb a n h) refl

pub InLevel-relevel :
    (level : ℕ → ℕ) (i j : ℕ) (p : ObjectPool)
    → InLevel level i p
    → InLevel (relevel level (length p.array_values) j) j p
InLevel-relevel level i j p s =
    let n = length p.array_values in
    record {
      valid = s.valid;
      leaves = s.leaves;
      in_scope =
          ArraysInScope-Agree level p.array_values s.in_scope (relevel level n j)
            (relevel-Agree level n j);
      next_level = λ a le. ground arith;
    }

-- A test case with the calls before `i`, and a pool for the next.
pub record ScopedUpTo (i : ℕ) (t : TestCase) (p : ObjectPool) : Type 0 where
  pub level : ℕ → ℕ
  pub state : InLevel level i p
  pub calls : CallsInScope level (length p.array_values) 0 t.calls

module _ (platform : Platform) (store : CafStore) (opt : Options) (root : ℕ) (valid : IsValid store)
    (below : HasDescendents store root) where
  generate_calls-ScopedUpTo :
      (n i : ℕ) (t : TestCase) (g : GenState platform.Engine)
      → i ≡ length t.calls
      → ScopedUpTo i t g.objects
      → Succeeds
          (λ (t', g'). ScopedUpTo (i + n) t' g'.objects)
          (generate_calls platform store opt root i n t g)
  unfolding generate_calls push_function_call
  generate_calls-ScopedUpTo zero i t g e s = returns_ok _ (record {
    level = s.level;
    state = subst (λ j. InLevel s.level j g.objects) (omega arith) s.state;
    calls = s.calls;
  })
  generate_calls-ScopedUpTo (suc n) i t g e s =
      let level = s.level in
      let heap = g.objects.array_values in
      Succeeds->>= _ _
        ((generate_function_call-RunsFrom platform store opt root valid below level i
            (length heap)).run
          g (omega arith) s.state)
        λ (call, g₁) (call_in, s₁).
          let n₁ = length g₁.objects.array_values in
          let level₁ = relevel level n₁ (i + 1) in
          let agree = relevel-Agree level n₁ (i + 1) in
          Succeeds-imp _ _
            (generate_calls-ScopedUpTo n (i + 1) (push_function_call call t) g₁
              (omega (arith, length-append t.calls (call ∷ [])))
              (record {
                level = level₁;
                state = InLevel-relevel level i (i + 1) g₁.objects s₁.state;
                calls =
                    CallsInScope-mono level level₁ n₁ n₁ agree (omega arith) 0
                      (t.calls ++ call ∷ [])
                      (CallsInScope-append level n₁ 0 i t.calls call (omega (arith, e))
                        (CallsInScope-mono level level (length heap) n₁ (λ a lt. refl) s₁.grows 0
                          t.calls s.calls)
                        call_in);
              }))
            (λ (t', g') s'. record {
              level = s'.level;
              state = subst (λ j. InLevel s'.level j g'.objects) (omega arith) s'.state;
              calls = s'.calls;
            })

  -- Over a valid store with a function below the root entry, options that allow a call and a valid
  -- pool whose arrays are in scope, the generator returns a test case whose calls refer only to
  -- earlier calls and to arrays that exist, as do the arrays that they reach, whatever the engine
  -- draws.
  pub generate_test_case_from-IsScoped :
      (level : ℕ → ℕ) (g : GenState platform.Engine)
      → InLevel level 0 g.objects
      → 1 ≤ opt.max_calls
      → Succeeds
          (λ (t, g'). (level' : ℕ → ℕ) × IsScoped level' g'.objects.array_values t)
          (generate_test_case_from platform store opt root g)
  unfolding generate_test_case_from new_test_case set_store_root_entry_index
  generate_test_case_from-IsScoped level g s some_allowed =
      Succeeds->>= _ _ (Draws-next_size platform 1 opt.max_calls some_allowed g)
        λ (n, g₁) (h, same).
          Succeeds-imp _ _
            (generate_calls-ScopedUpTo n 0 (set_store_root_entry_index root new_test_case) g₁ refl
              (record { level = level; state = subst (InLevel level 0) (sym same) s; calls = tt }))
            (λ (t, g') u. (u.level, record { arrays = u.state.in_scope; calls = u.calls }))
