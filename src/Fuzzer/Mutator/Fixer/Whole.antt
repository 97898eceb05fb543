-- ===== src/Fuzzer/Mutator/Fixer/Whole.antt =====
-- Fix of PlaceholderFixer in src/Fuzzer/TestCaseMutator.cpp, over all the calls of a test case.
use caf.Prelude.{
  true, ℕ, zero, suc, ◌+◌, ◌<◌, ◌≡◌, refl, ap, List, [], ◌∷◌, ◌++◌, length, take, drop, map, arith,
  All, Option, none, some,
}
use caf.Infrastructure.Result.{Succeeds, returns_ok, Succeeds->>=}
use caf.Fuzzer.Value.{Value, Arrays}
use caf.Fuzzer.TestCase.{FunctionCall, TestCase}
use caf.Fuzzer.ObjectPool.{get_placeholder_value}
use caf.Fuzzer.ObjectPool.Leaves.{IsSound}
use caf.Fuzzer.Generation.{try_pool, GenState}
use caf.Fuzzer.Mutator.Fixer.{Fix, member, fix_args, fix_this, fix_call, fix_calls, fix}
use caf.Fuzzer.Mutator.Fixer.Once.{
  Once, move_placeholder, Address, free_below, free_below_mono, free_below-le, Visited,
  Visited-mono, All-Visited-mono,
}
use caf.Fuzzer.Mutator.Fixer.Steps.{Once-refl, Once-trans}
use caf.Fuzzer.Mutator.Fixer.Ready.{IsReady, Moves, Fixes, IsReady-Moves}
use caf.Fuzzer.Mutator.Fixer.Traversal.{fix_value-Moves}

abbrev pub move_this : (ℕ → ℕ) → Option Value → Option Value
move_this move none = none
move_this move (some v) = some (move_placeholder move v)

abbrev pub move_call : (ℕ → ℕ) → FunctionCall → FunctionCall
move_call move call = record call {
  this = move_this move call.this;
  args = map (move_placeholder move) call.args;
}

-- What a call refers to.
abbrev pub AllThis : (Value → Type 0) → Option Value → Type 0
AllThis P none = Unit {0}
AllThis P (some v) = P v

abbrev pub AllValues : (Value → Type 0) → FunctionCall → Type 0
AllValues P call = AllThis P call.this × All P call.args

module _ (fixed fixed' : List ℕ) where
  AllThis-Visited-mono :
      (this : Option Value)
      → ((b : ℕ) → member b fixed ≡ true → member b fixed' ≡ true)
      → AllThis (Visited fixed) this
      → AllThis (Visited fixed') this
  AllThis-Visited-mono none kept h = tt
  AllThis-Visited-mono (some v) kept h = Visited-mono fixed fixed' v kept h

  AllValues-Visited-mono :
      (call : FunctionCall)
      → ((b : ℕ) → member b fixed ≡ true → member b fixed' ≡ true)
      → AllValues (Visited fixed) call
      → AllValues (Visited fixed') call
  AllValues-Visited-mono call kept h =
      (AllThis-Visited-mono call.this kept h.0, All-Visited-mono fixed fixed' call.args kept h.1)

Moves-refl :
    {S : Type 0} (move : ℕ → ℕ) (n : ℕ) (fixed : List ℕ) (g : GenState S)
    → IsReady move n g
    → Moves move n fixed g.objects.array_values fixed g
Moves-refl move n fixed g r = record {
  once = Once-refl move fixed g.objects.array_values;
  sound = r.sound;
}

Moves-trans :
    {S : Type 0} (move : ℕ → ℕ) (n : ℕ) {before between after : List ℕ} {heap : Arrays}
    {g g' : GenState S}
    → Moves move n before heap between g
    → Moves move n between g.objects.array_values after g'
    → Moves move n before heap after g'
Moves-trans move n m p = record { once = Once-trans move m.once p.once; sound = p.sound }

module _ {S : Type 0} (move : ℕ → ℕ) (n u : ℕ) where
  abbrev MovesThis : Option Value → List ℕ → Arrays → (Option Value × List ℕ) × GenState S → Type 0
  MovesThis this before heap ((this', after), g') =
      (this' ≡ move_this move this)
      × AllThis (Visited after) this'
      × Moves move n before heap after g'

  abbrev MovesArgs : List Value → List ℕ → Arrays → (List Value × List ℕ) × GenState S → Type 0
  MovesArgs vs before heap ((ws, after), g') =
      (ws ≡ map (move_placeholder move) vs)
      × All (Visited after) ws
      × Moves move n before heap after g'

  abbrev MovesCall : FunctionCall → List ℕ → Arrays → (FunctionCall × List ℕ) × GenState S → Type 0
  MovesCall call before heap ((call', after), g') =
      (call' ≡ move_call move call)
      × AllValues (Visited after) call'
      × Moves move n before heap after g'

  fix_this-Moves :
      (fix : Fix S)
      → Fixes move n u fix
      → (this : Option Value) (fixed : List ℕ) (g : GenState S) → IsReady move n g
      → AllThis (Address n) this
      → free_below n fixed < u
      → Succeeds (MovesThis this fixed g.objects.array_values) (fix_this fix this fixed g)
  unfolding fix_this
  fix_this-Moves fix fixes none fixed g r h fewer =
      returns_ok _ (refl, tt, Moves-refl move n fixed g r)
  fix_this-Moves fix fixes (some v) fixed g r h fewer =
      Succeeds->>= _ _ (fixes v fixed g r h fewer)
        λ ((w, fixed'), g₁) (w_moved, visited, m). returns_ok _ (ap some w_moved, visited, m)

  fix_args-Moves :
      (fix : Fix S)
      → Fixes move n u fix
      → (vs : List Value) (fixed : List ℕ) (g : GenState S) → IsReady move n g
      → All (Address n) vs
      → free_below n fixed < u
      → Succeeds (MovesArgs vs fixed g.objects.array_values) (fix_args fix vs fixed g)
  unfolding fix_args
  fix_args-Moves fix fixes [] fixed g r h fewer =
      returns_ok _ (refl, tt, Moves-refl move n fixed g r)
  fix_args-Moves fix fixes (v ∷ vs) fixed g r h fewer =
      Succeeds->>= _ _ (fixes v fixed g r h.0 fewer) λ ((w, fixed'), g₁) (w_moved, visited, m).
        Succeeds->>= _ _
          (fix_args-Moves fix fixes vs fixed' g₁ (IsReady-Moves move n r m) h.1
            (omega (arith, free_below_mono n fixed fixed' m.once.kept, fewer)))
          λ ((ws, after), g₂) (ws_moved, all_visited, p). returns_ok _ (
            rw (w_moved, ws_moved) refl,
            (Visited-mono fixed' after w p.once.kept visited, all_visited),
            Moves-trans move n m p,
          )

  fix_call-Moves :
      (fix : Fix S)
      → Fixes move n u fix
      → (call : FunctionCall) (fixed : List ℕ) (g : GenState S) → IsReady move n g
      → AllValues (Address n) call
      → free_below n fixed < u
      → Succeeds (MovesCall call fixed g.objects.array_values) (fix_call fix call fixed g)
  unfolding fix_call
  fix_call-Moves fix fixes call fixed g r h fewer =
      Succeeds->>= _ _ (fix_this-Moves fix fixes call.this fixed g r h.0 fewer)
        λ ((this, fixed'), g₁) (this_moved, visited, m).
          Succeeds->>= _ _
            (fix_args-Moves fix fixes call.args fixed' g₁ (IsReady-Moves move n r m) h.1
              (omega (arith, free_below_mono n fixed fixed' m.once.kept, fewer)))
            λ ((args, after), g₂) (args_moved, all_visited, p). returns_ok _ (
              rw (this_moved, args_moved) refl,
              (AllThis-Visited-mono fixed' after this p.once.kept visited, all_visited),
              Moves-trans move n m p,
            )

-- A run that has moved each placeholder of the calls, and of the arrays they lead to, once.
pub record MovesCalls {S : Type 0} (move : ℕ → ℕ) (n : ℕ) (calls : List FunctionCall)
    (before : List ℕ) (heap : Arrays) (calls' : List FunctionCall) (g' : GenState S) : Type 0 where
  pub after : List ℕ
  pub calls_moved : calls' ≡ map (move_call move) calls
  pub visited : All (AllValues (Visited after)) calls'
  pub moves : Moves move n before heap after g'

fix_calls-Moves :
    {S : Type 0} (move : ℕ → ℕ) (n f i : ℕ) (calls : List FunctionCall) (fixed : List ℕ)
    (g : GenState S)
    → IsReady move n g
    → All (AllValues (Address n)) calls
    → free_below n fixed < f
    → Succeeds
        (λ (calls', g'). MovesCalls move n calls fixed g.objects.array_values calls' g')
        (fix_calls f (λ i j. try_pool (get_placeholder_value (move j))) i calls fixed g)
unfolding fix_calls
fix_calls-Moves move n f i [] fixed g r h fewer = returns_ok _ (record {
  after = fixed;
  calls_moved = refl;
  visited = tt;
  moves = Moves-refl move n fixed g r;
})
fix_calls-Moves move n f i (call ∷ calls) fixed g r h fewer =
    Succeeds->>= _ _
      (fix_call-Moves move n f _ (fix_value-Moves move n f i) call fixed g r h.0 fewer)
      λ ((call', fixed'), g₁) (call_moved, visited, m).
        Succeeds->>= _ _
          (fix_calls-Moves move n f (i + 1) calls fixed' g₁ (IsReady-Moves move n r m) h.1
            (omega (arith, free_below_mono n fixed fixed' m.once.kept, fewer)))
          λ (calls', g₂) p. returns_ok _ (record {
            after = p.after;
            calls_moved = rw (call_moved, p.calls_moved) refl;
            visited =
                (AllValues-Visited-mono fixed' p.after call' p.moves.once.kept visited, p.visited);
            moves = Moves-trans move n m p.moves;
          })

-- What fixing a test case from the call of index `start` on comes to: the calls before it stay,
-- the placeholders of the others are moved, and so are those of every array they lead to, once.
pub record IsFixed {S : Type 0} (move : ℕ → ℕ) (start : ℕ) (t : TestCase) (heap : Arrays)
    (t' : TestCase) (g' : GenState S) : Type 0 where
  pub root : t'.store_root_entry_index ≡ t.store_root_entry_index
  pub calls : t'.calls ≡ take start t.calls ++ map (move_call move) (drop start t.calls)
  pub gone_through : List ℕ
  pub visited : All (AllValues (Visited gone_through)) (map (move_call move) (drop start t.calls))
  pub once : Once move [] gone_through heap g'.objects.array_values
  pub sound : IsSound g'.objects

All-drop {ℓ} : {A : Type ℓ} (P : A → Type 0) (i : ℕ) (xs : List A) → All P xs → All P (drop i xs)
All-drop P zero xs h = h
All-drop P (suc i) [] h = tt
All-drop P (suc i) (x ∷ xs) h = All-drop P i xs h.1

-- In a valid pool whose arrays hold only arrays that exist, and so do the calls from `start` on, the
-- fixer that replaces placeholder `j` by placeholder `move j` returns, whatever the arrays' sharing
-- and their cycles: the calls before `start` stay, the placeholders of the others are moved, and of
-- the arrays just those that it has gone through, once each; it has gone through every array that
-- these calls hold, and through every array that such an array holds.
pub fix-IsFixed :
    {S : Type 0} (move : ℕ → ℕ) (t : TestCase) (start : ℕ) (g : GenState S)
    → IsReady move (length g.objects.array_values) g
    → All (AllValues (Address (length g.objects.array_values))) (drop start t.calls)
    → Succeeds
        (λ (t', g'). IsFixed move start t g.objects.array_values t' g')
        (fix t start (λ i j. try_pool (get_placeholder_value (move j))) g)
unfolding fix
fix-IsFixed move t start g r h =
    let n = length g.objects.array_values in
    Succeeds->>= _ _
      (fix_calls-Moves move n (suc n) start (drop start t.calls) [] g r h
        (omega (arith, free_below-le n [])))
      λ (calls', g') m. returns_ok _ (record {
        root = refl;
        calls = ap (λ cs. take start t.calls ++ cs) m.calls_moved;
        gone_through = m.after;
        visited = rw m.calls_moved at m.visited;
        once = m.moves.once;
        sound = m.moves.sound;
      })
