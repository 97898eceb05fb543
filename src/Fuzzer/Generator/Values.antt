-- ===== src/Fuzzer/Generator/Values.antt =====
-- The values of src/Fuzzer/TestCaseGenerator.cpp.
use caf.Prelude.{
  ℕ, zero, suc, ◌+◌, ◌-◌, ◌≤◌, ◌<◌, ◌≡◌, refl, Bool, true, false, not, some, List, [], ◌∷◌, length,
  get_elem?, All, All-get_elem?, arith, ◌==◌, if◌then◌else◌, ltb, ltb→lt, ◌⊎◌, inl, inr,
}
use caf.Infrastructure.Result.{Succeeds, returns_ok}
use caf.Infrastructure.Random.{Platform, with_probability, double_zero, double_one}
use caf.Basic.CafStore.{CafStore, Entry, Function, get_entry, get_entry_function}
use caf.Basic.CafStore.Entries.{HasFunction, IsValid}
use caf.Fuzzer.Value.{Value, ValueKind, push}
use caf.Fuzzer.ObjectPool.{
  get_undefined_value, get_null_value, get_function_value, get_boolean_value,
  get_or_create_string_value, get_or_create_integer_value, get_or_create_float_value,
  create_array_value, get_placeholder_value,
}
use caf.Fuzzer.ObjectPool.Tables.{get_placeholder_value-placed}
use caf.Fuzzer.Generation.{try_pool, try_pool, GenState, ◌>>=◌}
use caf.Fuzzer.Generator.{
  Gen, Options, reuse_or, choose, next_string, select_function_id, generate_function_value,
  candidate_kinds, generate_value_kind, select_value, generate_integer, generate_float,
  push_generated, address, generate_array, generate_of_kind, generate_value_at, generate_value,
  should_generate, integer_dictionary, float_dictionary, character_set, choose_existing_prob,
  generate_dict_int_prob, generate_dict_float_prob,
}
use caf.Fuzzer.Generator.Runs.{
  Draws, Draws->>=, Draws-Runs, Draws-pure, Draws-lift, Draws-draw, Draws-choose, Runs, Any,
  Runs-arrays, Runs-set_arrays, Runs->>=, Runs-pure, Runs-from_pool, Runs-chance, Runs-next_size,
  Runs-choose,
}

pub All-Any : {A : Type 0} (xs : List A) → All Any xs
All-Any [] = tt
All-Any (x ∷ xs) = (tt, All-Any xs)

-- The root entry is there, and there is a function below it.
pub record HasDescendents (store : CafStore) (root : ℕ) : Type 0 where
  pub entry : Entry
  pub found : get_elem? store.entries root ≡ some entry
  pub some_below : 0 < length entry.descendents

module _ (platform : Platform) (store : CafStore) (opt : Options) (root : ℕ) (valid : IsValid store)
    (below : HasDescendents store root) where
  contained-Succeeds :
      (i : ℕ)
      → HasFunction store.entries i
      → Succeeds (λ e. (f : Function) × (e.func ≡ some f)) (get_entry i store)
  unfolding get_entry
  contained-Succeeds i (f, (e, at_i, h)) = rw at_i (returns_ok e (f, h))

  function-Succeeds :
      (e : Entry) → ((f : Function) × (e.func ≡ some f)) → Succeeds Any (get_entry_function e)
  unfolding get_entry_function
  function-Succeeds e (f, h) = rw h (returns_ok f tt)

  root-Succeeds :
      Succeeds
        (λ e. (0 < length e.descendents) × All (HasFunction store.entries) e.descendents)
        (get_entry root store)
  unfolding get_entry
  root-Succeeds = rw below.found (
      returns_ok below.entry (
        below.some_below,
        (All-get_elem? _ store.entries root below.entry valid.entries below.found).descendents,
      ))

  pub select_function_id-Draws : Draws Any (select_function_id platform store root)
  unfolding select_function_id
  select_function_id-Draws = Draws->>= _ _ (Draws-lift _ root-Succeeds) λ e (h, all).
      Draws->>= _ _ (Draws-choose platform _ e.descendents h all) λ i has.
        Draws->>= _ _ (Draws-lift _ (contained-Succeeds i has)) λ d has_function.
          Draws->>= _ _ (Draws-lift Any (function-Succeeds d has_function))
            λ f t. Draws-pure Any f.id tt

  pub select_function_id-Runs : Runs Any (select_function_id platform store root)
  select_function_id-Runs = Draws-Runs Any select_function_id-Draws

  pub generate_function_value-Runs : Runs Any (generate_function_value platform store root)
  unfolding generate_function_value
  generate_function_value-Runs =
      Runs->>= _ _ select_function_id-Runs λ id t. Runs-from_pool (get_function_value id)

  pub next_string-Draws : (n : ℕ) → Draws Any (next_string platform n character_set)
  unfolding next_string
  next_string-Draws zero = Draws-pure Any [] tt
  next_string-Draws (suc n) =
      Draws->>= _ _ (Draws-choose platform Any character_set (omega arith) (All-Any character_set))
        λ ch t. Draws->>= _ _ (next_string-Draws n) λ rest t'. Draws-pure Any (ch ∷ rest) tt

  pub drawn-Draws :
      (P : ℕ → Type 0) (b : Bool) (xs : List ℕ) (other : Gen platform ℕ)
      → 0 < length xs
      → All P xs
      → Draws P other
      → Draws P (if b then choose platform xs else other)
  drawn-Draws P true xs other h all k = Draws-choose platform P xs h all
  drawn-Draws P false xs other h all k = k

  generate_integer-Runs : Runs Any (generate_integer platform)
  unfolding generate_integer
  generate_integer-Runs = Runs->>= _ _ (Runs-chance platform generate_dict_int_prob) λ dict t.
      Runs->>= _ _
        (Draws-Runs _ (
          drawn-Draws Any dict integer_dictionary _ (omega arith) (All-Any integer_dictionary)
            (Draws-draw (platform.uniform_int32 0x8000_0000 0x7fff_ffff))))
        λ n t'. Runs-from_pool (get_or_create_integer_value n)

  generate_float-Runs : Runs Any (generate_float platform)
  unfolding generate_float
  generate_float-Runs = Runs->>= _ _ (Runs-chance platform generate_dict_float_prob) λ dict t.
      Runs->>= _ _
        (Draws-Runs _ (
          drawn-Draws Any dict float_dictionary _ (omega arith) (All-Any float_dictionary)
            (Draws-draw (platform.uniform_real double_zero double_one))))
        λ d t'. Runs-from_pool (get_or_create_float_value d)

  push_generated-Runs :
      (element : Gen platform Value) (a n : ℕ)
      → Runs Any element
      → Runs Any (push_generated platform element a n)
  unfolding push_generated
  push_generated-Runs element a zero h = Runs-pure Any tt tt
  push_generated-Runs element a (suc n) h = Runs->>= _ _ h λ v t.
      Runs->>= _ _ Runs-arrays λ heap t'.
        Runs->>= _ _ (Runs-set_arrays (push a v heap)) λ u t''. push_generated-Runs element a n h

  generate_array-Runs :
      (element : Gen platform Value)
      → Runs Any element
      → Runs Any (generate_array platform opt element)
  unfolding generate_array
  generate_array-Runs element h =
      Runs->>= _ _ (Runs-next_size platform 0 opt.max_array_length (omega arith)) λ size t.
        Runs->>= _ _ (Runs-from_pool create_array_value) λ v t'.
          Runs->>= _ _ (push_generated-Runs element (address platform v) size h)
            λ u t''. Runs-pure Any v tt

  -- One case of the switch; only an array needs its elements.
  Runs-placeholder : (i : ℕ) → Runs {S = platform.Engine} Any (try_pool (get_placeholder_value i))
  Runs-placeholder i g = rw (get_placeholder_value-placed i g.objects) (returns_ok _ tt)

  generate_of_kind-Runs :
      (curr : ℕ) (element : Gen platform Value) (k : ValueKind)
      → (k ≡ ValueKind.array → Runs Any element)
      → (k ≡ ValueKind.placeholder → should_generate curr ≡ true)
      → Runs Any (generate_of_kind platform store opt root curr element k)
  unfolding generate_of_kind
  generate_of_kind-Runs curr element ValueKind.undefined h j = Runs-from_pool get_undefined_value
  generate_of_kind-Runs curr element ValueKind.null h j = Runs-from_pool get_null_value
  generate_of_kind-Runs curr element ValueKind.function h j = generate_function_value-Runs
  generate_of_kind-Runs curr element ValueKind.boolean h j =
      Runs->>= _ _ (Runs-next_size platform 0 1 (omega arith))
        λ b t. Runs-from_pool (get_boolean_value (not (b == 0)))
  generate_of_kind-Runs curr element ValueKind.string h j =
      Runs->>= _ _ (Runs-next_size platform 0 opt.max_string_length (omega arith)) λ n t.
        Runs->>= _ _ (Draws-Runs _ (next_string-Draws n))
          λ s t'. Runs-from_pool (get_or_create_string_value s)
  generate_of_kind-Runs curr element ValueKind.integer h j = generate_integer-Runs
  generate_of_kind-Runs curr element ValueKind.float h j = generate_float-Runs
  generate_of_kind-Runs curr element ValueKind.array h j = generate_array-Runs element (h refl)
  generate_of_kind-Runs curr element ValueKind.placeholder h j =
      Runs->>= _ _ (Runs-next_size platform 0 (curr - 1) (omega arith)) λ i t. Runs-placeholder i

pub List-cases :
    {A : Type 0} (xs : List A) → (xs ≡ []) ⊎ ((x : A) × (rest : List A) × (xs ≡ x ∷ rest))
List-cases [] = inl refl
List-cases (x ∷ xs) = inr (x, xs, refl)

-- A kind that was chosen: an array or a placeholder only where they are asked for.
abbrev pub Offered : Bool → Bool → ValueKind → Type 0
Offered a p k = (k ≡ ValueKind.array → a ≡ true) × (k ≡ ValueKind.placeholder → p ≡ true)

module _ (platform : Platform) where
  candidate_kinds-Offered : (a p : Bool) → All (Offered a p) (candidate_kinds platform a p)
  candidate_kinds-Offered true true = grind arith
  candidate_kinds-Offered true false = grind arith
  candidate_kinds-Offered false true = grind arith
  candidate_kinds-Offered false false = grind arith

  candidate_kinds-some : (a p : Bool) → 0 < length (candidate_kinds platform a p)
  candidate_kinds-some a p = omega arith

  pub generate_value_kind-Draws :
      (a p : Bool) → Draws (Offered a p) (generate_value_kind platform a p)
  unfolding generate_value_kind
  generate_value_kind-Draws a p =
      Draws-choose platform (Offered a p) (candidate_kinds platform a p) (candidate_kinds-some a p)
        (candidate_kinds-Offered a p)

  -- A value that the pool holds, if it holds one.
  select_value-Succeeds :
      (g : GenState platform.Engine)
      → 0 < length g.objects.values
      → Succeeds (λ (v, g'). Any v) (select_value platform g)
  unfolding select_value
  select_value-Succeeds g h =
      Runs-choose platform Any g.objects.values h (All-Any g.objects.values) g

module _ (platform : Platform) (store : CafStore) (opt : Options) (root : ℕ) (valid : IsValid store)
    (below : HasDescendents store root) where
  fresh-Runs :
      (curr depth : ℕ) (element : Gen platform Value)
      → (depth < opt.max_depth → Runs Any element)
      → Runs Any (do
        k ← generate_value_kind platform (ltb depth opt.max_depth) (should_generate curr)
        generate_of_kind platform store opt root curr element k)
  fresh-Runs curr depth element h =
      Runs->>= _ _
        (Draws-Runs _
          (generate_value_kind-Draws platform (ltb depth opt.max_depth) (should_generate curr)))
        λ k (array_kind, placeholder_kind).
          generate_of_kind-Runs platform store opt root valid below curr element k
            (λ e. h (ltb→lt _ _ (array_kind e))) placeholder_kind

  reuse-Succeeds :
      (fresh : Gen platform Value) (g : GenState platform.Engine)
      → Runs Any fresh
      → 0 < length g.objects.values
      → (b : Bool) → Succeeds (λ (v, g'). Any v) ((if b then select_value platform else fresh) g)
  reuse-Succeeds fresh g h k true = select_value-Succeeds platform g k
  reuse-Succeeds fresh g h k false = h g

  reuse-Runs : (fresh : Gen platform Value) → Runs Any fresh → Runs Any (reuse_or platform fresh)
  reuse-Runs fresh h g = elim (List-cases g.objects.values) [
    | inl e ↦ rw e (h _)
    | inr (v, vs, e) ↦
        let (existing, engine) = with_probability platform choose_existing_prob g.engine in
        rw e (
          reuse-Succeeds fresh
            (record { objects = record (g.objects) { values = v ∷ vs }; engine = engine }) h
            (omega arith) existing)
  ]

  generate_value_at-Runs :
      (fuel curr depth : ℕ)
      → opt.max_depth + 2 ≤ fuel + depth
      → 0 < fuel
      → Runs Any (generate_value_at platform fuel store opt root curr depth)
  unfolding generate_value_at
  generate_value_at-Runs zero curr depth h k = absurd (omega arith)
  generate_value_at-Runs (suc fuel) curr depth h k = reuse-Runs _ (
      fresh-Runs curr depth (generate_value_at platform fuel store opt root curr (depth + 1))
        (λ below_max. generate_value_at-Runs fuel curr (depth + 1) (omega arith) (omega arith)))

  pub generate_value-Runs : (curr : ℕ) → Runs Any (generate_value platform store opt root curr)
  unfolding generate_value
  generate_value-Runs curr =
      generate_value_at-Runs (suc opt.max_depth) curr 1 (omega arith) (omega arith)
