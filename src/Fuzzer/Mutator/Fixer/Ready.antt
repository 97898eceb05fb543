-- ===== src/Fuzzer/Mutator/Fixer/Ready.antt =====
-- The states between which PlaceholderFixer of src/Fuzzer/TestCaseMutator.cpp runs.
use mathlib.Core.Option.{some-injective}
use caf.Prelude.{
  set-append_length, ℕ, ◌<◌, ◌≡◌, sym, subst, ◌∙◌, true, some, List, ◌∷◌, ◌++◌, length, set, map,
  ◌==◌, ==_iff, Bool-cases, inl, inr, arith, All, All-set, length-set, length-append,
  get_elem?-set_self, get_elem?-set_ne, get_elem?_bound, get_elem?-append_length, lt→ltb, ltb,
}
use caf.Infrastructure.Result.{ok, Succeeds}
use caf.Fuzzer.Value.{Value, Arrays, elements, get_element, set_element}
use caf.Fuzzer.ObjectPool.Leaves.{IsSound, with_arrays-IsSound}
use caf.Fuzzer.Generation.{GenState}
use caf.Fuzzer.Mutator.Fixer.{Fix}
use caf.Fuzzer.Mutator.Fixer.Once.{Once, move_placeholder, Address, IsClosed, free_below, Visited}
use caf.Fuzzer.Mutator.Fixer.Steps.{IsClosed-Once}

pub get_element-ok :
    (heap : Arrays) (a i : ℕ) (done rest : List Value) (v : Value)
    → i ≡ length done
    → elements heap a ≡ some (done ++ v ∷ rest)
    → get_element a i heap ≡ ok v
unfolding get_element
get_element-ok heap a i done rest v at_i e = rw (at_i, e, get_elem?-append_length done rest v)

pub set_element-ok :
    (heap : Arrays) (a i : ℕ) (done rest : List Value) (v w : Value)
    → i ≡ length done
    → elements heap a ≡ some (done ++ v ∷ rest)
    → set_element a i w heap ≡ ok (set heap a (done ++ w ∷ rest))
unfolding set_element
set_element-ok heap a i done rest v w at_i e =
    let inside : ltb (length done) (length (done ++ v ∷ rest)) ≡ true =
      lt→ltb (length done) (length (done ++ v ∷ rest))
        (omega (arith, length-append done (v ∷ rest))) in
    rw (at_i, e, inside, set-append_length done rest v w)

pub Address-All :
    (n : ℕ) (done rest : List Value) (v w : Value)
    → All (Address n) (done ++ v ∷ rest)
    → Address n w
    → All (Address n) (done ++ w ∷ rest)
Address-All n done rest v w h k =
    rw (set-append_length done rest v w) at
      (All-set (Address n) (done ++ v ∷ rest) (length done) w h k)

abbrev pub with_heap : {S : Type 0} → GenState S → Arrays → GenState S
with_heap g heap = record g { objects = record (g.objects) { array_values = heap } }

module _ {S : Type 0} (move : ℕ → ℕ) (n : ℕ) where
  -- A state whose arrays are there, and hold only arrays that are there.
  pub record IsReady (g : GenState S) : Type 0 where
    pub sound : IsSound g.objects
    pub count : length g.objects.array_values ≡ n
    pub closed : IsClosed n g.objects.array_values

  -- A run from `g` that has moved each placeholder once.
  pub record Moves (before : List ℕ) (heap : Arrays) (after : List ℕ) (g' : GenState S)
      : Type 0 where
    pub once : Once move before after heap g'.objects.array_values
    pub sound : IsSound g'.objects

  abbrev pub MovesValue : Value → List ℕ → Arrays → (Value × List ℕ) × GenState S → Type 0
  MovesValue v before heap ((w, after), g') =
      (w ≡ move_placeholder move v) × Visited after w × Moves before heap after g'

  abbrev pub MovesRest : List Value → List ℕ → Arrays → List ℕ × GenState S → Type 0
  MovesRest rest before heap (after, g') =
      All (Visited after) (map (move_placeholder move) rest) × Moves before heap after g'

  -- What `fix` promises where fewer than `u` arrays are left to go through.
  abbrev pub Fixes : ℕ → Fix S → Type 0
  Fixes u fix =
      (v : Value) (fixed : List ℕ) (g : GenState S)
      → IsReady g
      → Address n v
      → free_below n fixed < u
      → Succeeds (MovesValue v fixed g.objects.array_values) (fix v fixed g)

  pub IsReady-Moves :
      {before after : List ℕ} {g g' : GenState S}
      → IsReady g
      → Moves before g.objects.array_values after g'
      → IsReady g'
  IsReady-Moves r m = record {
    sound = m.sound;
    count = m.once.same_length ∙ r.count;
    closed = IsClosed-Once move n r.closed m.once;
  }

  pub IsReady-write :
      (g : GenState S) (a : ℕ) (xs : List Value)
      → IsReady g
      → All (Address n) xs
      → IsReady (with_heap g (set g.objects.array_values a xs))
  IsReady-write g a xs r h = record {
    sound = with_arrays-IsSound g.objects (set g.objects.array_values a xs) r.sound;
    count = length-set g.objects.array_values a xs ∙ r.count;
    closed = λ b ys e. elim (Bool-cases (a == b)) [
      | inl same ↦
          let a_b = (==_iff a b).0 same in
          let below : a < length g.objects.array_values = omega (
            arith,
            length-set g.objects.array_values a xs,
            get_elem?_bound (set g.objects.array_values a xs) b ys e,
            a_b,
          ) in
          subst (All (Address n))
            (some-injective _ _ (cc (get_elem?-set_self g.objects.array_values a xs below, e, a_b)))
            h
      | inr differs ↦ r.closed b ys (
          sym (
            get_elem?-set_ne g.objects.array_values a b xs
              (λ a_b. absurd (cc (differs, (==_iff a b).1 a_b))))
          ∙ e)
    ];
  }
