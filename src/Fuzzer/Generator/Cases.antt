-- ===== src/Fuzzer/Generator/Cases.antt =====
-- The calls and the test cases of src/Fuzzer/TestCaseGenerator.cpp.
use caf.Prelude.{
  ℕ, zero, suc, ◌+◌, ◌≤◌, ◌≡◌, refl, ap, Bool, true, false, [], ◌∷◌, length, All, All-append, arith,
  length-append, if◌then◌else◌,
}
use caf.Infrastructure.Result.{Succeeds}
use caf.Infrastructure.Random.{Platform}
use caf.Basic.CafStore.{CafStore}
use caf.Basic.CafStore.Entries.{IsValid}
use caf.Fuzzer.Value.{Value}
use caf.Fuzzer.TestCase.{
  FunctionCall, TestCase, new_function_call, set_this, set_constructor_call, push_arg,
  new_test_case, set_store_root_entry_index, push_function_call,
}
use caf.Fuzzer.Generation.{GenState, ◌>>=◌, pure}
use caf.Fuzzer.Generator.{
  Gen, Options, generate_this_prob, generate_ctor_prob, generate_value, generate_arguments_count,
  push_generated_args, generate_function_call, generate_calls, generate_test_case_from,
}
use caf.Fuzzer.Generator.Runs.{
  Runs, Any, Runs->>=, Runs-imp, Runs-pure, Runs-chance, Runs-next_size,
}
use caf.Fuzzer.Generator.Values.{HasDescendents, select_function_id-Runs, generate_value-Runs}

module _ (platform : Platform) where
  push_generated_args-Runs :
      (value : Gen platform Value)
      → Runs Any value
      → (n : ℕ) (call : FunctionCall)
      → Runs
          (λ call'. length call'.args ≡ length call.args + n)
          (push_generated_args platform value n call)
  unfolding push_generated_args push_arg
  push_generated_args-Runs value h zero call = Runs-pure _ call (omega arith)
  push_generated_args-Runs value h (suc n) call = Runs->>= Any _ h λ v t.
      Runs-imp _ _ (push_generated_args-Runs value h n (push_arg v call))
        (λ call' e. omega (arith, e, length-append call.args (v ∷ [])))

  generate_arguments_count-Runs : Runs (λ n. n ≤ 5) (generate_arguments_count platform)
  unfolding generate_arguments_count
  generate_arguments_count-Runs =
      Runs-imp (λ n. (0 ≤ n) × (n ≤ 5)) _ (Runs-next_size platform 0 5 (omega arith)) (λ n h. h.1)

-- What a generated call looks like, and a test case that has more calls than it had.
abbrev FewArgs : FunctionCall → Type 0
FewArgs call = length call.args ≤ 5

module _ (platform : Platform) (store : CafStore) (opt : Options) (root : ℕ) (valid : IsValid store)
    (below : HasDescendents store root) where
  this-Runs :
      (b : Bool) (i : ℕ) (call : FunctionCall)
      → call.args ≡ []
      → Runs
          (λ call'. call'.args ≡ [])
          (if b
            then (generate_value platform store opt root i >>= λ v. pure (set_this v call))
            else pure call)
  unfolding set_this
  this-Runs true i call h =
      Runs->>= Any _ (generate_value-Runs platform store opt root valid below i)
        λ v t. Runs-pure _ (set_this v call) h
  this-Runs false i call h = Runs-pure _ call h

  ctor-args :
      (b : Bool) (call : FunctionCall)
      → call.args ≡ []
      → (if b then set_constructor_call true call else call).args ≡ []
  unfolding set_constructor_call
  ctor-args true call h = h
  ctor-args false call h = h

  generate_function_call-Runs :
      (i : ℕ) → Runs FewArgs (generate_function_call platform store opt i root)
  unfolding generate_function_call new_function_call
  generate_function_call-Runs i =
      Runs->>= Any _ (select_function_id-Runs platform store opt root valid below) λ id t.
        Runs->>= Any _ (Runs-chance platform generate_this_prob) λ with_this t'.
          Runs->>= _ _ (this-Runs with_this i (new_function_call id) refl) λ call₁ h.
            Runs->>= Any _ (Runs-chance platform generate_ctor_prob) λ ctor t''.
              Runs->>= _ _ (generate_arguments_count-Runs platform) λ n few.
                Runs-imp _ FewArgs
                  (push_generated_args-Runs platform (generate_value platform store opt root i)
                    (generate_value-Runs platform store opt root valid below i) n
                    (if ctor then set_constructor_call true call₁ else call₁))
                  (λ call e. omega (arith, few, e, ap (length) (ctor-args ctor call₁ h)))

  generate_calls-Runs :
      (n i : ℕ) (t : TestCase)
      → All FewArgs t.calls
      → Runs
          (λ t'.
            (t'.store_root_entry_index ≡ t.store_root_entry_index)
            × (length t'.calls ≡ length t.calls + n)
            × All FewArgs t'.calls)
          (generate_calls platform store opt root i n t)
  unfolding generate_calls push_function_call
  generate_calls-Runs zero i t h = Runs-pure _ t (refl, omega arith, h)
  generate_calls-Runs (suc n) i t h = Runs->>= _ _ (generate_function_call-Runs i) λ call few.
      Runs-imp _ _
        (generate_calls-Runs n (i + 1) (push_function_call call t)
          (All-append FewArgs t.calls (call ∷ []) h (few, tt)))
        (λ t' (root', count, all).
          (root', omega (arith, count, length-append t.calls (call ∷ [])), all))

-- A test case as the options want it.
pub record Generated (opt : Options) (root : ℕ) (t : TestCase) : Type 0 where
  pub root_kept : t.store_root_entry_index ≡ root
  pub some_calls : 1 ≤ length t.calls
  pub calls_bounded : length t.calls ≤ opt.max_calls
  pub args_bounded : All FewArgs t.calls

-- From a valid store, a root entry with a function below it and options that allow a call, and
-- whatever the pool holds and the engine draws, the generator returns a test case: it keeps the
-- root, has a call, has no more calls than the options allow, and no call has more than five
-- arguments.
pub generate_test_case_from-Generated :
    (platform : Platform) (store : CafStore) (opt : Options) (root : ℕ)
    (g : GenState platform.Engine)
    → IsValid store
    → HasDescendents store root
    → 1 ≤ opt.max_calls
    → Succeeds (λ (t, g'). Generated opt root t) (generate_test_case_from platform store opt root g)
unfolding generate_test_case_from new_test_case set_store_root_entry_index
generate_test_case_from-Generated platform store opt root g valid below some_allowed =
    Runs->>= _ (Generated opt root) (Runs-next_size platform 1 opt.max_calls some_allowed)
      (λ n (least, most).
        Runs-imp _ (Generated opt root)
          (generate_calls-Runs platform store opt root valid below n 0
            (set_store_root_entry_index root new_test_case) tt)
          (λ t (kept, count, few). record {
            root_kept = kept;
            some_calls = omega arith;
            calls_bounded = omega arith;
            args_bounded = few;
          }))
      g
