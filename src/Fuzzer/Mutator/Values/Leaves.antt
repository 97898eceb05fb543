-- ===== src/Fuzzer/Mutator/Values/Leaves.antt =====
-- Strings and numbers that src/Fuzzer/TestCaseMutator.cpp mutates: steps that end.
use caf.Prelude.{
  Bool-cases, inl, inr, ltb, leb, ◌&&◌, get_elem?, Bool, ℕ, ◌+◌, ◌-◌, ◌^◌, ◌%◌, ◌==◌, List, [], ◌∷◌,
  length, set, insert_idx, erase_idx, ltb, leb, get_elem?, inl, inr,
}
use caf.Infrastructure.Result.{Error}
use caf.Infrastructure.Random.{Platform}
use caf.Fuzzer.Value.{Value}
use caf.Fuzzer.ObjectPool.{
  FloatClass, fpclassify, get_or_create_float_value, get_or_create_integer_value,
  get_or_create_string_value,
}
use caf.Fuzzer.Generation.{pure, lift}
use caf.Fuzzer.Generator.{Gen, Options}
use caf.Fuzzer.Mutator.{
  StringMutator, string_mutators, apply_string_mutator, choose_mutator, mutate_string, within,
  swap_found,
}
use caf.Fuzzer.Mutator.Numbers.{
  IntegerMutator, FloatMutator, integer_mutators, apply_integer_mutator, mutate_integer,
  apply_float_mutator, mutate_float, mask_lengths, float_min_increment, integer_min_increment,
  integer_max_increment, flip_bits, float_max_increment,
}
use caf.Fuzzer.Mutator.Halting.{
  Halts, Halts->>=, Halts-pure, Halts-fail, Halts-draw, Halts-from_pool, choose-Halts, index-Halts,
  next_size-Halts, generate_string_character-Halts, if-Halts,
}

within-Halts :
    {S A : Type 0} (e : Error) (inside : Bool) (a : A) → Halts {S = S} (lift (within e inside a))
within-Halts e inside a = elim (Bool-cases inside) [
  | inl h ↦ rw h (Halts-pure a)
  | inr h ↦ rw h (Halts-fail e)
]

module _ (platform : Platform) where
  apply_string_mutator-Halts :
      (m : StringMutator) (s : List ℕ) → Halts (apply_string_mutator platform m s)
  unfolding apply_string_mutator
  apply_string_mutator-Halts StringMutator.insert_character s =
      Halts->>= (next_size-Halts platform 0 (length s)) λ pos.
        Halts->>= (generate_string_character-Halts platform) λ ch.
          Halts->>= (within-Halts Error.out_of_range (leb pos (length s)) (insert_idx s pos ch))
            λ mutated. Halts-from_pool (get_or_create_string_value mutated)
  apply_string_mutator-Halts StringMutator.remove_character s =
      Halts->>= (index-Halts platform (length s)) λ pos.
        Halts->>= (within-Halts Error.out_of_range (leb pos (length s)) (erase_idx s pos))
          λ mutated. Halts-from_pool (get_or_create_string_value mutated)
  apply_string_mutator-Halts StringMutator.change_character s =
      Halts->>= (index-Halts platform (length s)) λ pos.
        Halts->>= (generate_string_character-Halts platform) λ ch.
          Halts->>= (within-Halts Error.undefined_behavior (ltb pos (length s)) (set s pos ch))
            λ mutated. Halts-from_pool (get_or_create_string_value mutated)
  apply_string_mutator-Halts StringMutator.exchange_characters s =
      Halts->>= (next_size-Halts platform 0 (length s - 2)) λ pos1.
        Halts->>= (next_size-Halts platform (pos1 + 1) (length s - 1)) λ pos2.
          Halts->>=
            (within-Halts Error.undefined_behavior (ltb pos1 (length s) && ltb pos2 (length s))
              (swap_found s pos1 pos2 (get_elem? s pos1) (get_elem? s pos2)))
            λ mutated. Halts-from_pool (get_or_create_string_value mutated)

  choose_mutator-Halts : (ms : List StringMutator) → Halts (choose_mutator platform ms)
  choose_mutator-Halts [] = Halts-fail Error.assertion
  choose_mutator-Halts (m ∷ ms) = choose-Halts platform (m ∷ ms)

  pub mutate_string-Halts : (opt : Options) (s : List ℕ) → Halts (mutate_string platform opt s)
  unfolding mutate_string
  mutate_string-Halts opt s =
      Halts->>= (choose_mutator-Halts (string_mutators opt s)) λ m. apply_string_mutator-Halts m s

  apply_integer_mutator-Halts :
      (m : IntegerMutator) (n : ℕ) → Halts (apply_integer_mutator platform m n)
  unfolding apply_integer_mutator
  apply_integer_mutator-Halts IntegerMutator.increment n =
      Halts->>= (Halts-draw (platform.uniform_int32 integer_min_increment integer_max_increment))
        λ inc. Halts-from_pool (get_or_create_integer_value ((n + inc) % 2 ^ 32))
  apply_integer_mutator-Halts IntegerMutator.negate n =
      if-Halts platform (n == 2 ^ 31) (Halts-fail Error.undefined_behavior) (Halts-from_pool _)
  apply_integer_mutator-Halts IntegerMutator.bitflip n =
      Halts->>= (choose-Halts platform mask_lengths) λ size.
        Halts->>= (next_size-Halts platform 0 (32 - size)) λ offset.
          if-Halts platform (leb 32 size) (Halts-fail Error.undefined_behavior)
            (Halts-from_pool (get_or_create_integer_value (flip_bits n size offset)))

  pub mutate_integer-Halts : (n : ℕ) → Halts (mutate_integer platform n)
  unfolding mutate_integer
  mutate_integer-Halts n =
      Halts->>= (choose-Halts platform integer_mutators) λ m. apply_integer_mutator-Halts m n

  apply_float_mutator-Halts : (m : FloatMutator) (d : ℕ) → Halts (apply_float_mutator platform m d)
  unfolding apply_float_mutator
  apply_float_mutator-Halts FloatMutator.increment d =
      Halts->>= (Halts-draw (platform.uniform_real float_min_increment float_max_increment))
        λ inc. Halts-from_pool (get_or_create_float_value (platform.add_double d inc))
  apply_float_mutator-Halts FloatMutator.negate d = Halts-from_pool _

  other_float-Halts :
      (c : FloatClass) (d : ℕ) {other : Gen platform Value}
      → Halts other
      → Halts {S = platform.Engine} (elim c [
        | FloatClass.fp_nan ↦ pure (Value.float d)
        | FloatClass.fp_infinite ↦ other
        | FloatClass.fp_other ↦ other
      ])
  other_float-Halts FloatClass.fp_nan d h = Halts-pure (Value.float d)
  other_float-Halts FloatClass.fp_infinite d h = h
  other_float-Halts FloatClass.fp_other d h = h

  pub mutate_float-Halts : (d : ℕ) → Halts (mutate_float platform d)
  unfolding mutate_float
  mutate_float-Halts d = other_float-Halts (fpclassify d) d (
      Halts->>= (choose-Halts platform (FloatMutator.increment ∷ FloatMutator.negate ∷ []))
        λ m. apply_float_mutator-Halts m d)
