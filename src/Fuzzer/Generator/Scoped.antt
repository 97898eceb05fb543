-- ===== src/Fuzzer/Generator/Scoped.antt =====
-- The scope of the values of src/Fuzzer/TestCaseGenerator.cpp: which calls a value that is made for a
-- call may refer to, and which arrays.
pub mod Leaves
pub mod Values
pub mod Calls
use caf.Prelude.{
  ℕ, zero, suc, ◌+◌, ◌-◌, ◌≤◌, ◌<◌, ◌≡◌, ◌^◌, refl, sym, subst, ap, ◌∙◌, Bool, true, false, not,
  List, [], ◌∷◌, ◌++◌, length, All, All-get_elem?, All-imp, arith, if◌then◌else◌, ltb, ltb→lt,
  length-append, ◌==◌, inl, inr,
}
use caf.Infrastructure.Result.{Succeeds, returns_ok, Succeeds->>=, Succeeds-imp}
use caf.Infrastructure.Random.{Platform, with_probability, double_zero, double_one}
use caf.Basic.CafStore.{CafStore}
use caf.Basic.CafStore.Entries.{IsValid}
use caf.Fuzzer.Value.{Value, ValueKind, Arrays, push}
use caf.Fuzzer.ObjectPool
use caf.Fuzzer.ObjectPool.{
  ObjectPool, get_undefined_value, get_null_value, get_function_value, get_boolean_value,
  get_or_create_string_value, get_or_create_integer_value, get_or_create_float_value,
  create_array_value, get_placeholder_value,
}
use caf.Fuzzer.ObjectPool.Contents
use caf.Fuzzer.ObjectPool.Contents.{with_arrays-IsValid, create_array_value-IsValid}
use caf.Fuzzer.ObjectPool.Tables.{get_placeholder_value-placed, placed, placed-Returns}
use caf.Fuzzer.ObjectPool.Leaves.{
  IsLeaf, IsLeafPool, GivesLeaf, get_undefined_value-GivesLeaf, get_null_value-GivesLeaf,
  get_boolean_value-GivesLeaf, get_function_value-GivesLeaf, get_or_create_string_value-GivesLeaf,
  get_or_create_integer_value-GivesLeaf, get_or_create_float_value-GivesLeaf, placed-IsLeafPool,
}
use caf.Fuzzer.Scope.{InScope, ArraysInScope}
use caf.Fuzzer.Scope.Levels.{
  IsLeaf-InScope, InScope-mono, ArraysInScope-new, ArraysInScope-push, length-push,
}
use caf.Fuzzer.Generation.{try_pool, GenState, M, ◌>>=◌, pure, from_pool, arrays, set_arrays}
use caf.Fuzzer.Generator.Runs.{Draws}

-- A pool while the call of index `i` is made: the arrays that come next get the level of that call.
pub record InLevel (level : ℕ → ℕ) (i : ℕ) (p : ObjectPool) : Type 0 where
  pub valid : Contents.IsValid p
  pub leaves : IsLeafPool p
  pub in_scope : ArraysInScope level p.array_values
  pub next_level : (a : ℕ) → length p.array_values ≤ a → level a ≡ i

pub record Follows (level : ℕ → ℕ) (i n : ℕ) (p : ObjectPool) : Type 0 where
  pub state : InLevel level i p
  pub grows : n ≤ length p.array_values

-- From `n` arrays or more the run returns a value of which, with the number of arrays then, `P`
-- holds.
pub record RunsFrom {S A : Type 0} (level : ℕ → ℕ) (i n : ℕ) (P : ℕ → A → Type 0) (m : M S A)
    : Type 0 where
  pub run :
      (g : GenState S)
      → n ≤ length g.objects.array_values
      → InLevel level i g.objects
      → Succeeds
          (λ (a, g'). P (length g'.objects.array_values) a × Follows level i n g'.objects)
          (m g)

abbrev pub Made : {A : Type 0} → ℕ → A → Type 0
Made n a = Unit {0}

-- The new array is the next one.
abbrev pub NewArray : (ℕ → ℕ) → ℕ → ℕ → Value → Type 0
NewArray level i n v = (a : ℕ) × (v ≡ Value.array a) × (a < n) × (level a ≡ i)

module _ (level : ℕ → ℕ) (i : ℕ) {S A : Type 0} where
  pub RunsFrom->>= :
      {B : Type 0} {P : ℕ → A → Type 0} {Q : ℕ → B → Type 0} {n : ℕ} {m : M S A} {f : A → M S B}
      → RunsFrom level i n P m
      → ((a : A) (n' : ℕ) → n ≤ n' → P n' a → RunsFrom level i n' Q (f a))
      → RunsFrom level i n Q (m >>= f)
  RunsFrom->>= h k = record {
    run = λ g le s. Succeeds->>= _ _ (h.run g le s) λ (a, g₁) (p, s₁).
        Succeeds-imp _ _
          ((k a (length g₁.objects.array_values) s₁.grows p).run g₁ (omega arith) s₁.state)
          (λ (b, g₂) (q, s₂).
            (q, record { state = s₂.state; grows = omega (arith, s₁.grows, s₂.grows) }));
  }

  pub RunsFrom-Draws :
      (P : A → Type 0) (n : ℕ) {m : M S A} → Draws P m → RunsFrom level i n (λ n'. P) m
  RunsFrom-Draws P n h = record {
    run = λ g le s. Succeeds-imp _ _ (h g) (λ (a, g') (p, same). (
      p,
      record {
        state = subst (InLevel level i) (sym same) s;
        grows = omega (arith, ap (λ q. length q.array_values) same, le);
      },
    ));
  }

  pub RunsFrom-pure :
      (P : ℕ → A → Type 0) (n : ℕ) (a : A)
      → ((n' : ℕ) → n ≤ n' → P n' a)
      → RunsFrom {S = S} level i n P (pure a)
  RunsFrom-pure P n a h = record {
    run = λ g le s. returns_ok _ (h _ le, record { state = s; grows = le });
  }

module _ (level : ℕ → ℕ) (i n : ℕ) {S : Type 0} where
  pub RunsFrom-leaf :
      (f : ObjectPool → Value × ObjectPool)
      → ((p : ObjectPool) → Contents.IsValid p → IsLeafPool p → GivesLeaf p (f p))
      → RunsFrom {S = S} level i n (λ n'. InScope level n' i) (from_pool f)
  RunsFrom-leaf f h = record {
    run = λ g le s.
        let gives = h g.objects s.valid s.leaves in
        returns_ok _ (
          IsLeaf-InScope level _ i _ gives.leaf,
          record {
            state = record {
              valid = gives.valid;
              leaves = gives.leaves;
              in_scope = subst (ArraysInScope level) (sym gives.arrays) s.in_scope;
              next_level = λ a le'. s.next_level a (omega (arith, ap length gives.arrays, le'));
            };
            grows = omega (arith, ap length gives.arrays, le);
          },
        );
  }

  pub RunsFrom-placeholder :
      (j : ℕ)
      → j < i
      → RunsFrom {S = S} level i n (λ n'. InScope level n' i) (try_pool (get_placeholder_value j))
  RunsFrom-placeholder j below = record {
    run = λ g le s.
        let r = placed-Returns g.objects s.valid j in
        rw (get_placeholder_value-placed j g.objects) (
          returns_ok _ (
            subst (InScope level _ i) (sym r.value) below,
            record {
              state = record {
                valid = r.valid;
                leaves = placed-IsLeafPool g.objects s.valid s.leaves j;
                in_scope = subst (ArraysInScope level) (sym r.arrays) s.in_scope;
                next_level = λ a le'. s.next_level a (omega (arith, ap length r.arrays, le'));
              };
              grows = omega (arith, ap length r.arrays, le);
            },
          ));
  }

  pub RunsFrom-NewArray :
      RunsFrom {S = S} level i n (NewArray level i) (from_pool create_array_value)
  unfolding create_array_value
  RunsFrom-NewArray = record {
    run = λ g le s.
        let heap = g.objects.array_values in
        let longer = length-append heap ([] ∷ []) in
        returns_ok _ (
          (length heap, refl, omega (arith, longer), s.next_level (length heap) (omega arith)),
          record {
            state = record {
              valid = create_array_value-IsValid g.objects s.valid;
              leaves = record { values = s.leaves.values; nan = s.leaves.nan; inf = s.leaves.inf };
              in_scope = ArraysInScope-new level heap s.in_scope;
              next_level = λ a le'. s.next_level a (omega (arith, longer, le'));
            };
            grows = omega (arith, longer, le);
          },
        );
  }

  -- A value in scope is pushed onto an array of the level.
  pub RunsFrom-push :
      (a : ℕ) (v : Value)
      → a < n
      → level a ≡ i
      → InScope level n i v
      → RunsFrom {S = S} level i n Made (arrays >>= λ heap. set_arrays (push a v heap))
  RunsFrom-push a v below at_level h = record {
    run = λ g le s.
        let heap = g.objects.array_values in
        let inside : a < length heap = omega (arith, below, le) in
        let same = length-push level heap s.in_scope a v inside in
        let now = InScope-mono level level n (length heap) i (λ b lt. refl) le v h in
        returns_ok _ (
          tt,
          record {
            state = record {
              valid = with_arrays-IsValid g.objects s.valid (push a v heap);
              leaves = record { values = s.leaves.values; nan = s.leaves.nan; inf = s.leaves.inf };
              in_scope = ArraysInScope-push level heap s.in_scope a v inside (rw at_level now);
              next_level = λ b le'. s.next_level b (omega (arith, same, le'));
            };
            grows = omega (arith, same, le);
          },
        );
  }
