-- ===== src/Fuzzer/Mutator/Arguments/Bounds.antt =====
-- How many arguments the calls have that src/Fuzzer/TestCaseMutator.cpp adds an argument to.
use caf.Prelude.{
  ℕ, zero, suc, ◌≤◌, ◌<◌, ◌≡◌, refl, ap, Bool, true, some, List, [], ◌∷◌, length, get_elem?, map,
  ltb→lt, lt→ltb, Bool-cases, inl, inr, arith, length-append, length-set, get_elem?_bound, All,
  All-set,
}
use caf.Infrastructure.Result.{Succeeds, returns_ok}
use caf.Infrastructure.Random.{Platform}
use caf.Basic.CafStore.{CafStore}
use caf.Basic.CafStore.Entries.{IsValid}
use caf.Fuzzer.TestCase.{FunctionCall, TestCase, push_arg, get_function_call, set_function_call}
use caf.Fuzzer.Generation.{GenState}
use caf.Fuzzer.Generator.{Options}
use caf.Fuzzer.Generator.Runs.{Runs, Any, Runs->>=, Runs-lift, Runs-choose}
use caf.Fuzzer.Generator.Values.{HasDescendents, generate_value-Runs}
use caf.Fuzzer.Mutator.Arguments.{candidates, takes_argument, choose_call, add_argument}

-- The call of that index passes the test.
Passes : (FunctionCall → Bool) → List FunctionCall → ℕ → Type 0
Passes test calls i = (call : FunctionCall) × (get_elem? calls i ≡ some call) × (test call ≡ true)

All-map-suc : (P : ℕ → Type 0) (xs : List ℕ) → All (λ i. P (suc i)) xs → All P (map suc xs)
All-map-suc P [] h = tt
All-map-suc P (x ∷ xs) h = (h.0, All-map-suc P xs h.1)

candidates-Passes :
    (test : FunctionCall → Bool) (calls : List FunctionCall)
    → All (Passes test calls) (candidates test calls)
unfolding Passes
candidates-Passes test [] = tt
candidates-Passes test (call ∷ calls) =
    let rest =
      All-map-suc (Passes test (call ∷ calls)) (candidates test calls)
        (candidates-Passes test calls) in
    elim (Bool-cases (test call)) [ inl e ↦ rw e ((call, refl, e), rest) | inr e ↦ rw e rest ]

length-map-suc : (xs : List ℕ) → length (map suc xs) ≡ length xs
length-map-suc [] = refl
length-map-suc (x ∷ xs) = omega (arith, length-map-suc xs)

candidates-some :
    (test : FunctionCall → Bool) (calls : List FunctionCall) (i : ℕ) (call : FunctionCall)
    → get_elem? calls i ≡ some call
    → test call ≡ true
    → 0 < length (candidates test calls)
candidates-some test [] i call h k = cc
candidates-some test (d ∷ calls) zero call h k =
    let d_passes : test d ≡ true = cc (h, k) in rw d_passes (omega arith)
candidates-some test (d ∷ calls) (suc i) call h k = elim (Bool-cases (test d)) [
  | inl e ↦ rw e (omega arith)
  | inr e ↦
      rw e (
        omega
          (arith, candidates-some test calls i call h k, length-map-suc (candidates test calls)))
]

abbrev pub FewArguments : Options → FunctionCall → Type 0
FewArguments opt call = length call.args ≤ opt.max_arguments

-- As many calls as there were, and none with too many arguments.
pub record IsBounded (opt : Options) (t t' : TestCase) : Type 0 where
  pub count : length t'.calls ≡ length t.calls
  pub few : All (FewArguments opt) t'.calls

module _ (platform : Platform) (opt : Options) (t : TestCase) where
  choose_call-Runs :
      (P : ℕ → Type 0) (is : List ℕ) → 0 < length is → All P is → Runs P (choose_call platform is)
  choose_call-Runs P [] h all = absurd (omega arith)
  choose_call-Runs P (i ∷ is) h all = Runs-choose platform P (i ∷ is) h all

  found-Succeeds :
      (i : ℕ) (call : FunctionCall)
      → get_elem? t.calls i ≡ some call
      → Succeeds (λ c. c ≡ call) (get_function_call i t)
  unfolding get_function_call
  found-Succeeds i call h = rw h (returns_ok call refl)

  changed-Succeeds :
      (i : ℕ) (call : FunctionCall)
      → i < length t.calls
      → FewArguments opt call
      → All (FewArguments opt) t.calls
      → Succeeds (IsBounded opt t) (set_function_call i call t)
  unfolding set_function_call
  changed-Succeeds i call below few all =
      rw (lt→ltb i (length t.calls) below, set_function_call)
        (returns_ok _ (record {
          count = length-set t.calls i call;
          few = All-set (FewArguments opt) t.calls i call all few;
        }))

-- In a test case over a valid store, with a function below its root entry and no call that has more
-- arguments than the options allow, a call that has fewer makes adding an argument succeed, whatever
-- the pool holds and the engine draws: there are as many calls as before, and still none has more
-- arguments than the options allow.
pub add_argument-IsBounded :
    (platform : Platform) (store : CafStore) (opt : Options) (t : TestCase) (i : ℕ)
    (call : FunctionCall) (g : GenState platform.Engine)
    → IsValid store
    → HasDescendents store t.store_root_entry_index
    → All (FewArguments opt) t.calls
    → get_elem? t.calls i ≡ some call
    → length call.args < opt.max_arguments
    → Succeeds (λ (t', g'). IsBounded opt t t') (add_argument platform store opt t g)
unfolding add_argument Passes push_arg
add_argument-IsBounded platform store opt t i call g valid below few at_i room =
    Runs->>= _ (IsBounded opt t)
      (choose_call-Runs platform opt t _ (candidates (takes_argument opt) t.calls)
        (candidates-some (takes_argument opt) t.calls i call at_i
          (lt→ltb (length call.args) opt.max_arguments room))
        (candidates-Passes (takes_argument opt) t.calls))
      (λ j (chosen, at_j, passes).
        Runs->>= _ _ (Runs-lift _ (found-Succeeds platform opt t j chosen at_j)) λ c same.
          Runs->>= Any _
            (generate_value-Runs platform store opt t.store_root_entry_index valid below j)
            λ v u. Runs-lift (IsBounded opt t) (
              changed-Succeeds platform opt t j (push_arg v c)
                (get_elem?_bound t.calls j chosen at_j)
                (omega (
                  arith,
                  length-append c.args (v ∷ []),
                  ltb→lt (length chosen.args) opt.max_arguments passes,
                  ap (λ x. length x.args) same,
                ))
                few))
      g
