-- ===== src/Fuzzer/Generator/Scoped/Values.antt =====
-- The scope of what GenerateValue of src/Fuzzer/TestCaseGenerator.cpp makes for a call.
use caf.Prelude.{
  ℕ, zero, suc, ◌+◌, ◌-◌, ◌≤◌, ◌<◌, ◌≡◌, refl, Bool, true, false, not, List, [], ◌∷◌, length, arith,
  if◌then◌else◌, ltb, ltb→lt, ◌==◌,
}
use caf.Infrastructure.Result.{Succeeds, Succeeds-imp}
use caf.Infrastructure.Random.{Platform, next, with_probability}
use caf.Basic.CafStore.{CafStore}
use caf.Basic.CafStore.Entries.{IsValid}
use caf.Fuzzer.Value.{Value, ValueKind}
use caf.Fuzzer.ObjectPool.{
  get_undefined_value, get_null_value, get_boolean_value, get_or_create_string_value,
}
use caf.Fuzzer.ObjectPool.Leaves.{
  IsLeaf, get_undefined_value-GivesLeaf, get_null_value-GivesLeaf, get_boolean_value-GivesLeaf,
  get_or_create_string_value-GivesLeaf,
}
use caf.Fuzzer.Scope.{InScope}
use caf.Fuzzer.Scope.Levels.{IsLeaf-InScope}
use caf.Fuzzer.Generation.{GenState, ◌>>=◌}
use caf.Fuzzer.Generator.{
  Gen, Options, existing_or, reuse_or, generate_value_kind, select_value, generate_of_kind,
  generate_value_at, generate_value, should_generate, choose_existing_prob,
}
use caf.Fuzzer.Generator.Runs.{Any, Draws-draw, Draws-choose, Draws-next_size}
use caf.Fuzzer.Generator.Values.{HasDescendents, next_string-Draws, generate_value_kind-Draws}
use caf.Fuzzer.Generator.Scoped.{
  InLevel, Follows, RunsFrom->>=, RunsFrom-Draws, RunsFrom-leaf, RunsFrom-placeholder,
}
use caf.Fuzzer.Generator.Scoped.Leaves.{
  Gives, generate_array-Gives, generate_function_value-Gives, generate_integer-Gives,
  generate_float-Gives,
}

some_values : (vs : List Value) → elim vs [ [] ↦ false | v ∷ ws ↦ true ] ≡ true → 0 < length vs
some_values [] h = cc
some_values (v ∷ vs) h = omega arith

module _ (platform : Platform) (store : CafStore) (opt : Options) (root : ℕ) (valid : IsValid store)
    (below : HasDescendents store root) (level : ℕ → ℕ) (i : ℕ) where
  abbrev InCall : ℕ → Gen platform Value → Type 0
  InCall n m = Gives platform store opt root valid below level i n m

  -- The switch: only a placeholder needs that there are earlier calls.
  generate_of_kind-Gives :
      (element : Gen platform Value) (k : ValueKind)
      → (k ≡ ValueKind.array → (n : ℕ) → InCall n element)
      → (k ≡ ValueKind.placeholder → should_generate i ≡ true)
      → (n : ℕ) → InCall n (generate_of_kind platform store opt root i element k)
  unfolding generate_of_kind
  generate_of_kind-Gives element ValueKind.undefined h j n =
      RunsFrom-leaf level i n get_undefined_value get_undefined_value-GivesLeaf
  generate_of_kind-Gives element ValueKind.null h j n =
      RunsFrom-leaf level i n get_null_value get_null_value-GivesLeaf
  generate_of_kind-Gives element ValueKind.function h j n =
      generate_function_value-Gives platform store opt root valid below level i n
  generate_of_kind-Gives element ValueKind.boolean h j n =
      RunsFrom->>= level i (RunsFrom-Draws level i Any n (Draws-draw (next platform 0 1)))
        λ b n' le t.
          RunsFrom-leaf level i n' (get_boolean_value (not (b == 0)))
            (λ p v l. get_boolean_value-GivesLeaf p v l (not (b == 0)))
  generate_of_kind-Gives element ValueKind.string h j n =
      RunsFrom->>= level i
        (RunsFrom-Draws level i Any n (Draws-draw (next platform 0 opt.max_string_length)))
        λ size n₁ le₁ t.
          RunsFrom->>= level i
            (RunsFrom-Draws level i Any n₁
              (next_string-Draws platform store opt root valid below size))
            λ s n₂ le₂ t'.
              RunsFrom-leaf level i n₂ (get_or_create_string_value s)
                (λ p v l. get_or_create_string_value-GivesLeaf p v l s)
  generate_of_kind-Gives element ValueKind.integer h j n =
      generate_integer-Gives platform store opt root valid below level i n
  generate_of_kind-Gives element ValueKind.float h j n =
      generate_float-Gives platform store opt root valid below level i n
  generate_of_kind-Gives element ValueKind.array h j n =
      generate_array-Gives platform store opt root valid below level i element (h refl) n
  generate_of_kind-Gives element ValueKind.placeholder h j n =
      RunsFrom->>= level i
        (RunsFrom-Draws level i _ n (Draws-next_size platform 0 (i - 1) (omega arith)))
        λ k n' le (least, most). RunsFrom-placeholder level i n' k (ground (arith, j refl, most))

  fresh-Gives :
      (depth : ℕ) (element : Gen platform Value)
      → (depth < opt.max_depth → (n : ℕ) → InCall n element)
      → (n : ℕ)
      → InCall n (do
        k ← generate_value_kind platform (ltb depth opt.max_depth) (should_generate i)
        generate_of_kind platform store opt root i element k)
  fresh-Gives depth element h n =
      RunsFrom->>= level i
        (RunsFrom-Draws level i _ n
          (generate_value_kind-Draws platform (ltb depth opt.max_depth) (should_generate i)))
        λ k n' le (array_kind, placeholder_kind).
          generate_of_kind-Gives element k (λ e. h (ltb→lt _ _ (array_kind e))) placeholder_kind n'

  -- What the pool counts are leaves.
  select_value-Gives :
      (n : ℕ) (g : GenState platform.Engine)
      → n ≤ length g.objects.array_values
      → 0 < length g.objects.values
      → InLevel level i g.objects
      → Succeeds
          (λ (v, g').
            InScope level (length g'.objects.array_values) i v × Follows level i n g'.objects)
          (select_value platform g)
  unfolding select_value
  select_value-Gives n g le some_values s =
      Succeeds-imp _ _
        ((RunsFrom-Draws level i IsLeaf n
            (Draws-choose platform IsLeaf g.objects.values some_values s.leaves.values)).run
          g le s)
        (λ (v, g') (leaf, s'). (IsLeaf-InScope level _ i v leaf, s'))

  existing-Gives :
      (fresh : Gen platform Value) (n : ℕ) (g : GenState platform.Engine)
      → InCall n fresh
      → n ≤ length g.objects.array_values
      → 0 < length g.objects.values
      → InLevel level i g.objects
      → (b : Bool)
      → Succeeds
          (λ (v, g').
            InScope level (length g'.objects.array_values) i v × Follows level i n g'.objects)
          ((if b then select_value platform else fresh) g)
  existing-Gives fresh n g h le k s true = select_value-Gives n g le k s
  existing-Gives fresh n g h le k s false = h.run g le s

  if_some-Gives :
      (fresh : Gen platform Value) (n : ℕ) (g : GenState platform.Engine)
      → InCall n fresh
      → n ≤ length g.objects.array_values
      → InLevel level i g.objects
      → (b : Bool) → (b ≡ true → 0 < length g.objects.values)
      → Succeeds
          (λ (v, g').
            InScope level (length g'.objects.array_values) i v × Follows level i n g'.objects)
          ((if b then existing_or platform fresh else fresh) g)
  if_some-Gives fresh n g h le s true some_values =
      let (existing, engine) = with_probability platform choose_existing_prob g.engine in
      existing-Gives fresh n (record { objects = g.objects; engine = engine }) h le
        (some_values refl) s existing
  if_some-Gives fresh n g h le s false some_values = h.run g le s

  reuse-Gives :
      (fresh : Gen platform Value) (n : ℕ) → InCall n fresh → InCall n (reuse_or platform fresh)
  reuse-Gives fresh n h = record {
    run = λ g le s. if_some-Gives fresh n g h le s _ (some_values g.objects.values);
  }

  generate_value_at-Gives :
      (fuel depth : ℕ)
      → opt.max_depth + 2 ≤ fuel + depth
      → 0 < fuel
      → (n : ℕ) → InCall n (generate_value_at platform fuel store opt root i depth)
  unfolding generate_value_at
  generate_value_at-Gives zero depth h k n = absurd (omega arith)
  generate_value_at-Gives (suc fuel) depth h k n = reuse-Gives _ n (
      fresh-Gives depth (generate_value_at platform fuel store opt root i (depth + 1))
        (λ below_max. generate_value_at-Gives fuel (depth + 1) (omega arith) (omega arith)) n)

  pub generate_value-Gives : (n : ℕ) → InCall n (generate_value platform store opt root i)
  unfolding generate_value
  generate_value-Gives n =
      generate_value_at-Gives (suc opt.max_depth) 1 (omega arith) (omega arith) n
