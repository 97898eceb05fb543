-- ===== src/Fuzzer/Scope/Serialized.antt =====
-- What src/Fuzzer/TestCaseGenerator.cpp makes, given to src/Fuzzer/TestCaseSerializer.cpp.
use caf.Prelude.{ℕ, ◌≤◌, ◌≡◌}
use caf.Infrastructure.Result.{Succeeds, Succeeds-imp, ok}
use caf.Infrastructure.Random.{Platform}
use caf.Infrastructure.Stream.{Bytes}
use caf.Basic.CafStore.{CafStore}
use caf.Basic.CafStore.Entries.{IsValid}
use caf.Fuzzer.Generation.{GenState}
use caf.Fuzzer.Generator.{Options, generate_test_case_from}
use caf.Fuzzer.Generator.Values.{HasDescendents}
use caf.Fuzzer.Generator.Scoped.{InLevel}
use caf.Fuzzer.Generator.Scoped.Calls.{generate_test_case_from-IsScoped}
use caf.Fuzzer.Serializer.{serialize}
use caf.Fuzzer.Serializer.Total.{serialize-total}

-- From a valid store, a root entry with a function below it, options that allow a call and a valid
-- pool whose arrays are in scope, the generator returns a test case that is serialised, whatever the
-- engine draws.
pub generate_test_case_from-serialize :
    (platform : Platform) (store : CafStore) (opt : Options) (root : ℕ) (level : ℕ → ℕ)
    (g : GenState platform.Engine)
    → IsValid store
    → HasDescendents store root
    → InLevel level 0 g.objects
    → 1 ≤ opt.max_calls
    → Succeeds
        (λ (t, g'). (bs : Bytes) × (serialize g'.objects.array_values t ≡ ok bs))
        (generate_test_case_from platform store opt root g)
generate_test_case_from-serialize platform store opt root level g valid below s some_allowed =
    Succeeds-imp _ _
      (generate_test_case_from-IsScoped platform store opt root valid below level g s some_allowed)
      (λ (t, g') (level', scoped). serialize-total g'.objects.array_values t level' scoped)
