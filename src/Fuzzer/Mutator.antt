-- ===== src/Fuzzer/Mutator.antt =====
-- include/Fuzzer/TestCaseMutator.h and src/Fuzzer/TestCaseMutator.cpp; here, how strings are mutated. The
-- name of the last mutator, which is kept for messages, is left out.
pub mod Halting
pub mod Strings
pub mod Arguments
pub mod Numbers
pub mod Fixer
pub mod Values
pub mod Calls
use caf.Prelude.{
  Bool, ◌&&◌, Option, ℕ, ◌+◌, ◌-◌, none, some, List, [], ◌∷◌, ◌++◌, length, get_elem?, set,
  insert_idx, erase_idx, ltb, leb, if◌then◌else◌,
}
use caf.Infrastructure.Result.{
  Result, ok, throw, Error, out_of_range, assertion, undefined_behavior,
}
use caf.Infrastructure.Random.{Platform, index}
use caf.Fuzzer.Value.{Value}
use caf.Fuzzer.ObjectPool.{get_or_create_string_value}
use caf.Fuzzer.Generation.{◌>>=◌, fail, lift, try_draw, from_pool}
use caf.Fuzzer.Generator.{Gen, Options, next_size, choose, generate_string_character}

pub data StringMutator : Type 0 where
  insert_character remove_character change_character exchange_characters : StringMutator

-- Those that can mutate a string, in the order of the array.
abbrev pub string_mutators : Options → List ℕ → List StringMutator
string_mutators opt s =
    (if ltb (length s) opt.max_string_length then StringMutator.insert_character ∷ [] else [])
    ++ ((if ltb 0 (length s)
          then StringMutator.remove_character ∷ StringMutator.change_character ∷ []
          else [])
        ++ (if leb 2 (length s) then StringMutator.exchange_characters ∷ [] else []))

-- What is done at a position that must be inside a sequence.
abbrev pub within {ℓ} : {A : Type ℓ} → Error → Bool → A → Result A
within e inside a = if inside then ok a else throw e

-- std::string::insert and erase throw, where operator[] is left undefined.
abbrev pub insert_at : List ℕ → ℕ → ℕ → Result (List ℕ)
insert_at s pos ch = within out_of_range (leb pos (length s)) (insert_idx s pos ch)

abbrev pub erase_at : List ℕ → ℕ → Result (List ℕ)
erase_at s pos = within out_of_range (leb pos (length s)) (erase_idx s pos)

abbrev pub set_at : List ℕ → ℕ → ℕ → Result (List ℕ)
set_at s pos ch = within undefined_behavior (ltb pos (length s)) (set s pos ch)

abbrev pub swap_found {ℓ} : {A : Type ℓ} → List A → ℕ → ℕ → Option A → Option A → List A
swap_found s i j (some a) (some b) = set (set s i b) j a
swap_found s i j none b = s
swap_found s i j (some a) none = s

-- std::swap of two elements.
abbrev pub swap {ℓ} : {A : Type ℓ} → List A → ℕ → ℕ → Result (List A)
swap s i j =
    within undefined_behavior (ltb i (length s) && ltb j (length s))
      (swap_found s i j (get_elem? s i) (get_elem? s j))

module _ (platform : Platform) where
  unfoldable pub apply_string_mutator : StringMutator → List ℕ → Gen platform Value
  unfolding generate_string_character
  apply_string_mutator StringMutator.insert_character s = do
    pos ← next_size platform 0 (length s)
    ch ← generate_string_character platform
    mutated ← lift (insert_at s pos ch)
    from_pool (get_or_create_string_value mutated)
  apply_string_mutator StringMutator.remove_character s = do
    pos ← try_draw (index platform (length s))
    mutated ← lift (erase_at s pos)
    from_pool (get_or_create_string_value mutated)
  apply_string_mutator StringMutator.change_character s = do
    pos ← try_draw (index platform (length s))
    ch ← generate_string_character platform
    mutated ← lift (set_at s pos ch)
    from_pool (get_or_create_string_value mutated)
  apply_string_mutator StringMutator.exchange_characters s = do
    pos1 ← next_size platform 0 (length s - 2)
    pos2 ← next_size platform (pos1 + 1) (length s - 1)
    mutated ← lift (swap s pos1 pos2)
    from_pool (get_or_create_string_value mutated)

  -- The assertion that there is a mutator, and the choice of one.
  abbrev pub choose_mutator : List StringMutator → Gen platform StringMutator
  choose_mutator [] = fail assertion
  choose_mutator (m ∷ ms) = choose platform (m ∷ ms)

  unfoldable pub mutate_string : Options → List ℕ → Gen platform Value
  unfolding apply_string_mutator
  mutate_string opt s = do
    mutator ← choose_mutator (string_mutators opt s)
    apply_string_mutator mutator s
