-- ===== src/Fuzzer/Generator.antt =====
-- include/Fuzzer/TestCaseGenerator.h and src/Fuzzer/TestCaseGenerator.cpp.
pub mod Runs
pub mod Values
pub mod Cases
pub mod Scoped
use caf.Prelude.{
  ℕ, zero, suc, ◌+◌, ◌-◌, Bool, true, false, not, List, [], ◌∷◌, ◌++◌, length, ltb, ◌==◌,
  if◌then◌else◌,
}
use caf.Infrastructure.Result.{ok, out_of_fuel}
use caf.Infrastructure.Random.{Platform, with_probability, select, next, double_zero, double_one}
use caf.Basic.CafStore
use caf.Basic.CafStore.{CafStore, Function}
use caf.Fuzzer.Value.{Value, ValueKind, push}
use caf.Fuzzer.TestCase.{
  FunctionCall, TestCase, new_function_call, set_this, set_constructor_call, push_arg,
  new_test_case, set_store_root_entry_index, push_function_call,
}
use caf.Fuzzer.ObjectPool.{
  get_undefined_value, get_null_value, get_function_value, get_boolean_value,
  get_or_create_string_value, get_or_create_integer_value, get_or_create_float_value,
  create_array_value, get_placeholder_value, infinity, neg_infinity, quiet_nan,
}
use caf.Fuzzer.Generation.{
  try_pool, M, ◌>>=◌, ◌>>◌, pure, lift, draw, try_draw, from_pool, arrays, set_arrays,
}

pub record Options : Type 0 where
  pub max_calls : ℕ
  pub max_string_length : ℕ
  pub max_array_length : ℕ
  pub max_arguments : ℕ
  pub max_depth : ℕ

abbrev pub default_options : Options
default_options = record {
  max_calls = 5;
  max_string_length = 10;
  max_array_length = 5;
  max_arguments = 5;
  max_depth = 3;
}

-- GeneratePlaceholderValueParams is the index of the current call; 0 asks for no placeholder.
abbrev pub should_generate : ℕ → Bool
should_generate curr_call_index = not (curr_call_index == 0)

-- The patterns of the probabilities 0.5, 0.2, 0.6, 0.2 and 0.2.
abbrev pub generate_this_prob : ℕ
generate_this_prob = 0x3fe0_0000_0000_0000

abbrev pub generate_ctor_prob : ℕ
generate_ctor_prob = 0x3fc9_9999_9999_999a

abbrev pub generate_dict_int_prob : ℕ
generate_dict_int_prob = 0x3fe3_3333_3333_3333

abbrev pub choose_existing_prob : ℕ
choose_existing_prob = 0x3fc9_9999_9999_999a

abbrev pub generate_dict_float_prob : ℕ
generate_dict_float_prob = 0x3fc9_9999_9999_999a

abbrev pub integer_dictionary : List ℕ
integer_dictionary =
    0xffff_ffff ∷ 0 ∷ 1 ∷ 2 ∷ 3 ∷ 4 ∷ 7 ∷ 8 ∷ 9 ∷ 15 ∷ 16 ∷ 17 ∷ 31 ∷ 32 ∷ 33 ∷ 63 ∷ 64 ∷ 65 ∷ 127
    ∷ 128 ∷ 129 ∷ 255 ∷ 256 ∷ 257 ∷ 511 ∷ 512 ∷ 513 ∷ 1023 ∷ 1024 ∷ 1025 ∷ 4095 ∷ 4096 ∷ 4097
    ∷ 32767 ∷ 32768 ∷ 32769 ∷ 65535 ∷ 65536 ∷ 65537 ∷ 0xffff_ff80 ∷ 0xffff_8000 ∷ 0x8000_0000
    ∷ 0x7fff_ffff ∷ []

abbrev pub float_dictionary : List ℕ
float_dictionary =
    0 ∷ 0x8000_0000_0000_0000 ∷ 0x3ff0_0000_0000_0000 ∷ 0xbff0_0000_0000_0000
    ∷ 0x3cb0_0000_0000_0000 ∷ infinity ∷ neg_infinity ∷ quiet_nan ∷ []

-- ASCII from the letters to "<>?", then the space, the newline, the tab and the carriage return.
abbrev pub codes_from : ℕ → ℕ → List ℕ
codes_from zero first = []
codes_from (suc n) first = first ∷ codes_from n (first + 1)

abbrev pub character_set : List ℕ
character_set =
    codes_from 26 97
    ++ codes_from 26 65
    ++ codes_from 10 48
    ++ (126 ∷ 33 ∷ 64 ∷ 35 ∷ 36 ∷ 37 ∷ 94 ∷ 38 ∷ 42 ∷ 40 ∷ 41 ∷ 45 ∷ 61 ∷ 95 ∷ 43 ∷ [])
    ++ (96 ∷ 91 ∷ 93 ∷ 92 ∷ 123 ∷ 125 ∷ 124 ∷ 59 ∷ 39 ∷ 58 ∷ 34 ∷ 44 ∷ 46 ∷ 47 ∷ 60 ∷ 62 ∷ 63 ∷ [])
    ++ (32 ∷ 10 ∷ 9 ∷ 13 ∷ [])

module _ (platform : Platform) where
  open platform use {Engine, uniform_int32, uniform_real}

  abbrev pub Gen : Type 0 → Type 0
  Gen A = M Engine A

  abbrev pub chance : ℕ → Gen Bool
  chance p = draw (with_probability platform p)

  abbrev pub next_size : ℕ → ℕ → Gen ℕ
  next_size min max = draw (next platform min max)

  abbrev pub choose : {A : Type 0} → List A → Gen A
  choose xs = try_draw (select platform xs)

  unfoldable pub next_string : ℕ → List ℕ → Gen (List ℕ)
  next_string zero charset = pure []
  next_string (suc n) charset = do
    ch ← choose charset
    rest ← next_string n charset
    pure (ch ∷ rest)

  -- The ID of a function below the root entry, chosen at random.
  unfoldable pub select_function_id : CafStore → ℕ → Gen ℕ
  select_function_id store root = do
    entry ← lift (CafStore.get_entry root store)
    i ← choose entry.descendents
    descendent ← lift (CafStore.get_entry i store)
    f ← lift (CafStore.get_entry_function descendent)
    pure f.id

  unfoldable pub generate_function_value : CafStore → ℕ → Gen Value
  unfolding select_function_id
  generate_function_value store root = do
    id ← select_function_id store root
    from_pool (get_function_value id)

  unfoldable pub generate_string_character : Gen ℕ
  generate_string_character = choose character_set

  unfoldable pub generate_arguments_count : Gen ℕ
  generate_arguments_count = next_size 0 5

  abbrev pub candidate_kinds : Bool → Bool → List ValueKind
  candidate_kinds with_array with_placeholder =
      (ValueKind.undefined ∷ ValueKind.null ∷ ValueKind.boolean ∷ ValueKind.string
        ∷ ValueKind.function ∷ ValueKind.integer ∷ ValueKind.float ∷ [])
      ++ ((if with_array then ValueKind.array ∷ [] else [])
          ++ (if with_placeholder then ValueKind.placeholder ∷ [] else []))

  unfoldable pub generate_value_kind : Bool → Bool → Gen ValueKind
  generate_value_kind with_array with_placeholder =
      choose (candidate_kinds with_array with_placeholder)

  abbrev pub has_values : Gen Bool
  has_values g = ok ((elim g.objects.values [ [] ↦ false | v ∷ vs ↦ true ]), g)

  -- SelectValue, from the values that the pool counts.
  unfoldable pub select_value : Gen Value
  select_value g = choose g.objects.values g

  unfoldable pub generate_integer : Gen Value
  generate_integer = do
    dict ← chance generate_dict_int_prob
    n ← (if dict then choose integer_dictionary else draw (uniform_int32 0x8000_0000 0x7fff_ffff))
    from_pool (get_or_create_integer_value n)

  unfoldable pub generate_float : Gen Value
  generate_float = do
    dict ← chance generate_dict_float_prob
    d ← (if dict then choose float_dictionary else draw (uniform_real double_zero double_one))
    from_pool (get_or_create_float_value d)

  -- `n` elements, each pushed as it is made.
  unfoldable pub push_generated : Gen Value → ℕ → ℕ → Gen (Unit {0})
  unfolding push
  push_generated element a zero = pure tt
  push_generated element a (suc n) = do
    v ← element
    heap ← arrays
    set_arrays (push a v heap)
    push_generated element a n

  abbrev pub address : Value → ℕ
  address (Value.array a) = a
  address _ = 0

  unfoldable pub generate_array : Options → Gen Value → Gen Value
  unfolding push_generated
  generate_array opt element = do
    size ← next_size 0 opt.max_array_length
    v ← from_pool create_array_value
    push_generated element (address v) size
    pure v

  -- The switch over the kind; `element` makes the elements of an array.
  unfoldable pub generate_of_kind : CafStore → Options → ℕ → ℕ → Gen Value → ValueKind → Gen Value
  unfolding generate_function_value next_string generate_integer generate_float generate_array
  generate_of_kind store opt root curr element ValueKind.undefined = from_pool get_undefined_value
  generate_of_kind store opt root curr element ValueKind.null = from_pool get_null_value
  generate_of_kind store opt root curr element ValueKind.function =
      generate_function_value store root
  generate_of_kind store opt root curr element ValueKind.boolean = do
    b ← next_size 0 1
    from_pool (get_boolean_value (not (b == 0)))
  generate_of_kind store opt root curr element ValueKind.string = do
    n ← next_size 0 opt.max_string_length
    s ← next_string n character_set
    from_pool (get_or_create_string_value s)
  generate_of_kind store opt root curr element ValueKind.integer = generate_integer
  generate_of_kind store opt root curr element ValueKind.float = generate_float
  generate_of_kind store opt root curr element ValueKind.array = generate_array opt element
  generate_of_kind store opt root curr element ValueKind.placeholder = do
    i ← next_size 0 (curr - 1)
    try_pool (get_placeholder_value i)

  -- GenerateValue starts with the choice of a value that is there already.
  abbrev pub existing_or : Gen Value → Gen Value
  existing_or fresh = do
    existing ← chance choose_existing_prob
    if existing then select_value else fresh

  abbrev pub reuse_or : Gen Value → Gen Value
  reuse_or fresh = do some_values ← has_values; if some_values then existing_or fresh else fresh

  -- GenerateValue at a depth; arrays are only made below the depth limit, and `fuel` counts the
  -- levels that are left.
  unfoldable pub generate_value_at : ℕ → CafStore → Options → ℕ → ℕ → ℕ → Gen Value
  unfolding generate_value_kind select_value generate_of_kind
  generate_value_at zero store opt root curr depth = λ g. out_of_fuel
  generate_value_at (suc fuel) store opt root curr depth = reuse_or (do
    k ← generate_value_kind (ltb depth opt.max_depth) (should_generate curr)
    generate_of_kind store opt root curr (generate_value_at fuel store opt root curr (depth + 1)) k)

  abbrev pub generation_fuel : Options → ℕ
  generation_fuel opt = suc opt.max_depth

  unfoldable pub generate_value : CafStore → Options → ℕ → ℕ → Gen Value
  unfolding generate_value_at
  generate_value store opt root curr = generate_value_at (generation_fuel opt) store opt root curr 1

  unfoldable pub push_generated_args : Gen Value → ℕ → FunctionCall → Gen FunctionCall
  unfolding push_arg
  push_generated_args value zero call = pure call
  push_generated_args value (suc n) call = do
    v ← value
    push_generated_args value n (push_arg v call)

  unfoldable pub generate_function_call : CafStore → Options → ℕ → ℕ → Gen FunctionCall
  unfolding select_function_id generate_value generate_arguments_count push_generated_args
      new_function_call set_this set_constructor_call
  generate_function_call store opt i root = do
    id ← select_function_id store root
    let call = new_function_call id
    with_this ← chance generate_this_prob
    call₁ ←
        (if with_this
          then (generate_value store opt root i >>= λ v. pure (set_this v call))
          else pure call)
    ctor ← chance generate_ctor_prob
    let call₂ = if ctor then set_constructor_call true call₁ else call₁
    n ← generate_arguments_count
    push_generated_args (generate_value store opt root i) n call₂

  unfoldable pub generate_calls : CafStore → Options → ℕ → ℕ → ℕ → TestCase → Gen TestCase
  unfolding generate_function_call push_function_call
  generate_calls store opt root i zero t = pure t
  generate_calls store opt root i (suc n) t = do
    call ← generate_function_call store opt i root
    generate_calls store opt root (i + 1) n (push_function_call call t)

  -- GenerateTestCase from a root entry.
  unfoldable pub generate_test_case_from : CafStore → Options → ℕ → Gen TestCase
  unfolding generate_calls new_test_case set_store_root_entry_index
  generate_test_case_from store opt root = do
    n ← next_size 1 opt.max_calls
    generate_calls store opt root 0 n (set_store_root_entry_index root new_test_case)

  unfoldable pub generate_test_case : CafStore → Options → Gen TestCase
  unfolding generate_test_case_from
  generate_test_case store opt = do
    root ← next_size 0 (length store.entries - 1)
    generate_test_case_from store opt root
