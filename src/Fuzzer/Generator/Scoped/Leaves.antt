-- ===== src/Fuzzer/Generator/Scoped/Leaves.antt =====
-- The scope of the single values and of the arrays that GenerateValue of
-- src/Fuzzer/TestCaseGenerator.cpp makes for a call.
use caf.Prelude.{ℕ, zero, suc, ◌<◌, ◌≡◌, ◌^◌, refl, All, arith}
use caf.Infrastructure.Result.{returns_ok}
use caf.Infrastructure.Random.{Platform, next, with_probability, double_zero, double_one}
use caf.Basic.CafStore.{CafStore}
use caf.Basic.CafStore.Entries.{IsValid}
use caf.Fuzzer.Value.{Value}
use caf.Fuzzer.ObjectPool.{
  get_function_value, get_or_create_integer_value, get_or_create_float_value,
}
use caf.Fuzzer.ObjectPool.Leaves.{
  get_function_value-GivesLeaf, get_or_create_integer_value-GivesLeaf,
  get_or_create_float_value-GivesLeaf,
}
use caf.Fuzzer.Scope.{InScope}
use caf.Fuzzer.Generation.{◌>>=◌, pure, draw}
use caf.Fuzzer.Generator.{
  Gen, Options, chance, generate_function_value, generate_integer, generate_float, push_generated,
  address, generate_array, integer_dictionary, float_dictionary, generate_dict_int_prob,
  generate_dict_float_prob,
}
use caf.Fuzzer.Generator.Runs.{Any, Draws, Draws-draw}
use caf.Fuzzer.Generator.Values.{HasDescendents, All-Any, select_function_id-Draws, drawn-Draws}
use caf.Fuzzer.Generator.Scoped.{
  RunsFrom, Made, NewArray, RunsFrom->>=, RunsFrom-Draws, RunsFrom-pure, RunsFrom-leaf,
  RunsFrom-NewArray, RunsFrom-push,
}

Pattern : ℕ → Type 0
Pattern n = n < 2 ^ 32

integer_dictionary-Pattern : All Pattern integer_dictionary
unfolding Pattern
integer_dictionary-Pattern = ground arith

module _ (platform : Platform) (store : CafStore) (opt : Options) (root : ℕ) (valid : IsValid store)
    (below : HasDescendents store root) (level : ℕ → ℕ) (i : ℕ) where
  -- A run that gives a value in the scope of the call.
  abbrev pub Gives : ℕ → Gen platform Value → Type 0
  Gives n m = RunsFrom level i n (λ n'. InScope level n' i) m

  chance-Draws : (p : ℕ) → Draws Any (chance platform p)
  chance-Draws p = Draws-draw (with_probability platform p)

  pub generate_function_value-Gives :
      (n : ℕ) → Gives n (generate_function_value platform store root)
  unfolding generate_function_value
  generate_function_value-Gives n =
      RunsFrom->>= level i
        (RunsFrom-Draws level i Any n
          (select_function_id-Draws platform store opt root valid below))
        λ id n' le t.
          RunsFrom-leaf level i n' (get_function_value id)
            (λ p v l. get_function_value-GivesLeaf p v l id)

  uniform_int32-Draws :
      (min max : ℕ) → Draws Pattern (draw {S = platform.Engine} (platform.uniform_int32 min max))
  unfolding Pattern
  uniform_int32-Draws min max g =
      returns_ok _ (platform.uniform_int32_pattern min max g.engine, refl)

  pub generate_integer-Gives : (n : ℕ) → Gives n (generate_integer platform)
  unfolding generate_integer Pattern
  generate_integer-Gives n =
      RunsFrom->>= level i (RunsFrom-Draws level i Any n (chance-Draws generate_dict_int_prob))
        λ dict n' le t.
          RunsFrom->>= level i
            (RunsFrom-Draws level i Pattern n' (
              drawn-Draws platform store opt root valid below Pattern dict integer_dictionary _
                (omega arith) integer_dictionary-Pattern
                (uniform_int32-Draws 0x8000_0000 0x7fff_ffff)))
            λ k n'' le' small.
              RunsFrom-leaf level i n'' (get_or_create_integer_value k)
                (λ p v l. get_or_create_integer_value-GivesLeaf p v l k small)

  pub generate_float-Gives : (n : ℕ) → Gives n (generate_float platform)
  unfolding generate_float
  generate_float-Gives n =
      RunsFrom->>= level i (RunsFrom-Draws level i Any n (chance-Draws generate_dict_float_prob))
        λ dict n' le t.
          RunsFrom->>= level i
            (RunsFrom-Draws level i Any n' (
              drawn-Draws platform store opt root valid below Any dict float_dictionary _
                (omega arith) (All-Any float_dictionary)
                (Draws-draw (platform.uniform_real double_zero double_one))))
            λ d n'' le' t'.
              RunsFrom-leaf level i n'' (get_or_create_float_value d)
                (λ p v l. get_or_create_float_value-GivesLeaf p v l d)

  push_generated-RunsFrom :
      (element : Gen platform Value)
      → ((n : ℕ) → Gives n element)
      → (a : ℕ) → level a ≡ i
      → (size n : ℕ) → a < n
      → RunsFrom level i n Made (push_generated platform element a size)
  unfolding push_generated
  push_generated-RunsFrom element h a at_level zero n inside =
      RunsFrom-pure level i Made n tt (λ n' le. tt)
  push_generated-RunsFrom element h a at_level (suc size) n inside =
      RunsFrom->>= level i (h n) λ v n' le v_in.
        RunsFrom->>= level i
          (RunsFrom-push level i n' a v (omega (arith, inside, le)) at_level v_in)
          λ u n'' le' t.
            push_generated-RunsFrom element h a at_level size n'' (omega (arith, inside, le, le'))

  filled-Gives :
      (element : Gen platform Value)
      → ((n : ℕ) → Gives n element)
      → (size n : ℕ) (v : Value) → NewArray level i n v
      → Gives n (push_generated platform element (address platform v) size >>= λ u. pure v)
  filled-Gives element h size n v (a, v_a, inside, at_level) = rw v_a (
      RunsFrom->>= level i {f = λ u. pure (Value.array a)}
        (push_generated-RunsFrom element h a at_level size n inside)
        λ u n' le t.
          RunsFrom-pure level i (λ n''. InScope level n'' i) n' (Value.array a)
            (λ n'' le'. (omega (arith, inside, le, le'), omega (arith, at_level))))

  pub generate_array-Gives :
      (element : Gen platform Value)
      → ((n : ℕ) → Gives n element)
      → (n : ℕ) → Gives n (generate_array platform opt element)
  unfolding generate_array
  generate_array-Gives element h n =
      RunsFrom->>= level i
        (RunsFrom-Draws level i Any n (Draws-draw (next platform 0 opt.max_array_length)))
        λ size n₁ le₁ t.
          RunsFrom->>= level i (RunsFrom-NewArray level i n₁)
            λ v n₂ le₂ new. filled-Gives element h size n₂ v new
