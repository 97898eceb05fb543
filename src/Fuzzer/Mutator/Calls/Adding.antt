-- ===== src/Fuzzer/Mutator/Calls/Adding.antt =====
-- AddFunctionCall of src/Fuzzer/TestCaseMutator.cpp: the new call, the calls after it, and the arrays
-- that these lead to.
use caf.Prelude.{All, ℕ, ◌+◌, ◌≤◌, ◌<◌, ◌≡◌, List, [], ◌∷◌, ◌++◌, length, map, take, drop}
use caf.Infrastructure.Result.{ok}
use caf.Infrastructure.Random.{Platform}
use caf.Basic.CafStore.{CafStore}
use caf.Fuzzer.Value.{Arrays}
use caf.Fuzzer.TestCase.{FunctionCall, TestCase}
use caf.Fuzzer.ObjectPool.{ObjectPool}
use caf.Fuzzer.ObjectPool.Leaves.{IsSound}
use caf.Fuzzer.Scope.{IsScoped}
use caf.Fuzzer.Generation.{GenState}
use caf.Fuzzer.Generator.{Options, generate_function_call}
use caf.Fuzzer.Mutator.Fixer.Once.{Once, Visited}
use caf.Fuzzer.Mutator.Fixer.Whole.{AllValues, move_call}

-- A test case with a new call at `index`; `move` is what becomes of a reference to a call. `made` are
-- the arrays when the call is made; the later calls lead to those of `gone_through`, of which each has
-- its references moved once, and all others stay.
pub record Added (index : ℕ) (call : FunctionCall) (made : Arrays) (t t' : TestCase)
    (p : ObjectPool) : Type 0 where
  pub index_le : index ≤ length t.calls
  pub move : ℕ → ℕ
  pub earlier : (j : ℕ) → j < index → move j ≡ j
  pub later : (j : ℕ) → index ≤ j → move j ≡ j + 1
  pub root : t'.store_root_entry_index ≡ t.store_root_entry_index
  pub calls : t'.calls ≡ take index t.calls ++ call ∷ map (move_call move) (drop index t.calls)
  pub gone_through : List ℕ
  pub visited : All (AllValues (Visited gone_through)) (map (move_call move) (drop index t.calls))
  pub once : Once move [] gone_through made p.array_values
  pub level : ℕ → ℕ
  pub scoped : IsScoped level p.array_values t'
  pub sound : IsSound p

-- A call that the generator makes from the pool `p` is added; the arrays that it leaves are those
-- that the later calls refer to.
pub record AddedCall (platform : Platform) (store : CafStore) (opt : Options) (t t' : TestCase)
    (p p' : ObjectPool) : Type 0 where
  pub index : ℕ
  pub call : FunctionCall
  pub before : GenState platform.Engine
  pub after : GenState platform.Engine
  pub same_pool : before.objects ≡ p
  pub generated :
      generate_function_call platform store opt index t.store_root_entry_index before
      ≡ ok (call, after)
  pub added : Added index call after.objects.array_values t t' p'
