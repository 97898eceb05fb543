-- ===== src/Fuzzer/Mutator/Numbers.antt =====
-- src/Fuzzer/TestCaseMutator.cpp: how integers and floats are mutated.
use Prim.Native.Nat.{bit_xor}
use caf.Prelude.{ℕ, ◌+◌, ◌-◌, ◌*◌, ◌%◌, ◌^◌, List, [], ◌∷◌, leb, ◌==◌, if◌then◌else◌}
use caf.Infrastructure.Result.{undefined_behavior}
use caf.Infrastructure.Random.{Platform}
use caf.Fuzzer.Value.{Value}
use caf.Fuzzer.ObjectPool.{
  FloatClass, fpclassify, get_or_create_integer_value, get_or_create_float_value,
}
use caf.Fuzzer.Generation.{◌>>=◌, pure, fail, draw, from_pool}
use caf.Fuzzer.Generator.{Gen, next_size, choose}

pub data IntegerMutator : Type 0 where
  increment negate bitflip : IntegerMutator

pub data FloatMutator : Type 0 where
  increment negate : FloatMutator

abbrev pub integer_mutators : List IntegerMutator
integer_mutators = IntegerMutator.increment ∷ IntegerMutator.negate ∷ IntegerMutator.bitflip ∷ []

-- The patterns of -10 and 10, and of -100.0 and 100.0.
abbrev pub integer_min_increment : ℕ
integer_min_increment = 0xffff_fff6

abbrev pub integer_max_increment : ℕ
integer_max_increment = 10

abbrev pub float_min_increment : ℕ
float_min_increment = 0xc059_0000_0000_0000

abbrev pub float_max_increment : ℕ
float_max_increment = 0x4059_0000_0000_0000

abbrev pub mask_lengths : List ℕ
mask_lengths = 1 ∷ 2 ∷ 4 ∷ 8 ∷ 16 ∷ 32 ∷ []

-- `n ^ (((1 << length) - 1) << offset)`.
unfoldable pub flip_bits : ℕ → ℕ → ℕ → ℕ
flip_bits n length offset = bit_xor n ((2 ^ length - 1) * 2 ^ offset)

module _ (platform : Platform) where
  open platform use {uniform_int32, uniform_real, add_double}

  unfoldable pub apply_integer_mutator : IntegerMutator → ℕ → Gen platform Value
  unfolding flip_bits
  apply_integer_mutator IntegerMutator.increment n = do
    inc ← draw (uniform_int32 integer_min_increment integer_max_increment)
    from_pool (get_or_create_integer_value ((n + inc) % 2 ^ 32))
  -- The negative of the least integer overflows.
  apply_integer_mutator IntegerMutator.negate n =
      if n == 2 ^ 31
      then fail undefined_behavior
      else from_pool (get_or_create_integer_value ((2 ^ 32 - n) % 2 ^ 32))
  -- `1 << 32` has no meaning for an int.
  apply_integer_mutator IntegerMutator.bitflip n = do
    length ← choose platform mask_lengths
    offset ← next_size platform 0 (32 - length)
    if leb 32 length
        then fail undefined_behavior
        else from_pool (get_or_create_integer_value (flip_bits n length offset))

  unfoldable pub mutate_integer : ℕ → Gen platform Value
  unfolding apply_integer_mutator
  mutate_integer n = do mutator ← choose platform integer_mutators; apply_integer_mutator mutator n

  -- A negated double has the other sign bit.
  unfoldable pub apply_float_mutator : FloatMutator → ℕ → Gen platform Value
  apply_float_mutator FloatMutator.increment d = do
    inc ← draw (uniform_real float_min_increment float_max_increment)
    from_pool (get_or_create_float_value (add_double d inc))
  apply_float_mutator FloatMutator.negate d =
      from_pool (get_or_create_float_value ((d + 2 ^ 63) % 2 ^ 64))

  -- A NaN stays as it is.
  unfoldable pub mutate_float : ℕ → Gen platform Value
  unfolding apply_float_mutator fpclassify
  mutate_float d =
      let other = do
        mutator ← choose platform (FloatMutator.increment ∷ FloatMutator.negate ∷ [])
        apply_float_mutator mutator d
      in elim (fpclassify d) [
        | FloatClass.fp_nan ↦ pure (Value.float d)
        | FloatClass.fp_infinite ↦ other
        | FloatClass.fp_other ↦ other
      ]
