-- ===== src/Fuzzer/Mutator/Values.antt =====
-- src/Fuzzer/TestCaseMutator.cpp: how arrays, and values of any kind, are mutated. A mutated array
-- is a new one.
pub mod Leaves
pub mod Termination
pub mod Exchange
use caf.Prelude.{
  ◌==◌, get_elem?, ℕ, zero, suc, ◌+◌, ◌-◌, Bool, true, false, not, List, [], ◌∷◌, ◌++◌, length,
  take, drop, ltb, leb, if◌then◌else◌,
}
use caf.Infrastructure.Result
use caf.Infrastructure.Result.{
  Result, ok, out_of_fuel, out_of_range, null_pointer, assertion, unreachable, or_throw,
}
use caf.Infrastructure.Random.{Platform}
use caf.Basic.CafStore.{CafStore}
use caf.Fuzzer.Value.{Value, elements, get_element, push}
use caf.Fuzzer.ObjectPool.{get_boolean_value, create_array_value}
use caf.Fuzzer.Generation.{◌>>=◌, ◌>>◌, pure, fail, lift, from_pool, arrays, set_arrays}
use caf.Fuzzer.Generator.{
  Gen, Options, next_size, choose, chance, address, generate_value, generate_function_value,
}
use caf.Fuzzer.Mutator.{mutate_string}
use caf.Fuzzer.Mutator.Numbers.{mutate_integer, mutate_float}

pub data ArrayMutator : Type 0 where
  push_element remove_element mutate_element exchange_elements : ArrayMutator

-- Those that can mutate an array of `n` elements, in the order of the array of mutators.
abbrev pub array_mutators : Options → ℕ → List ArrayMutator
array_mutators opt n =
    (if ltb n opt.max_array_length then ArrayMutator.push_element ∷ [] else [])
    ++ ((if ltb 0 n then ArrayMutator.remove_element ∷ ArrayMutator.mutate_element ∷ [] else [])
        ++ (if leb 2 n then ArrayMutator.exchange_elements ∷ [] else []))

-- The patterns of the probabilities 0.1 and 0.2.
abbrev pub generate_new_value_prob : ℕ
generate_new_value_prob = 0x3fb9_9999_9999_999a

abbrev pub mutate_type_prob : ℕ
mutate_type_prob = 0x3fc9_9999_9999_999a

-- Which element comes to position `k` when those at `i` and `j` are exchanged.
abbrev pub exchange : ℕ → ℕ → ℕ → ℕ
exchange i j k = if k == i then j else (if k == j then i else k)

-- The loop of ExchangeElements over the `n` positions from `k` on.
unfoldable pub exchanged : List Value → ℕ → ℕ → ℕ → ℕ → Result (List Value)
exchanged xs i j k zero = ok []
exchanged xs i j k (suc n) =
    Result.◌>>=◌ (or_throw out_of_range (get_elem? xs (exchange i j k)))
      λ v. Result.◌>>=◌ (exchanged xs i j (k + 1) n) λ vs. ok (v ∷ vs)

module _ (platform : Platform) where
  unfoldable pub elements_of : ℕ → Gen platform (List Value)
  elements_of a = do heap ← arrays; lift (or_throw null_pointer (elements heap a))

  unfoldable pub push_all : ℕ → List Value → Gen platform (Unit {0})
  unfolding push
  push_all a [] = pure tt
  push_all a (v ∷ vs) = do heap ← arrays; set_arrays (push a v heap); push_all a vs

  -- CreateArrayValue, and a Push for each element.
  unfoldable pub new_array_of : List Value → Gen platform Value
  unfolding push_all create_array_value
  new_array_of vs = do w ← from_pool create_array_value; push_all (address platform w) vs; pure w

  -- `generate` makes a value for the call, `mutate` is Mutate one level down.
  unfoldable pub apply_array_mutator :
      Gen platform Value → (Value → Gen platform Value) → ArrayMutator → ℕ → Gen platform Value
  unfolding elements_of new_array_of
  apply_array_mutator generate mutate ArrayMutator.push_element a = do
    element ← generate
    xs ← elements_of a
    new_array_of (xs ++ element ∷ [])
  apply_array_mutator generate mutate ArrayMutator.remove_element a = do
    xs ← elements_of a
    pos ← next_size platform 0 (length xs - 1)
    new_array_of (take pos xs ++ drop (pos + 1) xs)
  apply_array_mutator generate mutate ArrayMutator.mutate_element a = do
    xs ← elements_of a
    pos ← next_size platform 0 (length xs - 1)
    heap ← arrays
    old ← lift (get_element a pos heap)
    element ← mutate old
    ys ← elements_of a
    new_array_of (take pos ys ++ element ∷ drop (pos + 1) ys)
  apply_array_mutator generate mutate ArrayMutator.exchange_elements a = do
    xs ← elements_of a
    pos1 ← next_size platform 0 (length xs - 2)
    pos2 ← next_size platform (pos1 + 1) (length xs - 1)
    swapped ← lift (exchanged xs pos1 pos2 0 (length xs))
    new_array_of swapped

  abbrev pub choose_array_mutator : List ArrayMutator → Gen platform ArrayMutator
  choose_array_mutator [] = fail assertion
  choose_array_mutator (m ∷ ms) = choose platform (m ∷ ms)

  unfoldable pub mutate_array :
      Options → Gen platform Value → (Value → Gen platform Value) → ℕ → Gen platform Value
  unfolding elements_of apply_array_mutator
  mutate_array opt generate mutate a = do
    xs ← elements_of a
    mutator ← choose_array_mutator (array_mutators opt (length xs))
    apply_array_mutator generate mutate mutator a

  -- Where the value is neither replaced nor of another type: the second switch over the kind.
  unfoldable pub mutate_of_kind :
      CafStore
      → Options
      → ℕ
      → Gen platform Value
      → (Value → Gen platform Value)
      → Value
      → Gen platform Value
  unfolding generate_function_value get_boolean_value mutate_string mutate_integer mutate_float
      mutate_array
  mutate_of_kind store opt root generate mutate (Value.function f) =
      generate_function_value platform store root
  mutate_of_kind store opt root generate mutate (Value.boolean b) =
      from_pool (get_boolean_value (not b))
  mutate_of_kind store opt root generate mutate (Value.string s) = mutate_string platform opt s
  mutate_of_kind store opt root generate mutate (Value.integer n) = mutate_integer platform n
  mutate_of_kind store opt root generate mutate (Value.float d) = mutate_float platform d
  mutate_of_kind store opt root generate mutate (Value.array a) = mutate_array opt generate mutate a
  mutate_of_kind store opt root generate mutate (Value.placeholder j) = generate
  mutate_of_kind store opt root generate mutate Value.undefined = fail unreachable
  mutate_of_kind store opt root generate mutate Value.null = fail unreachable

  -- The undefined and the null value are replaced before a type is drawn.
  unfoldable pub mutate_kept :
      CafStore
      → Options
      → ℕ
      → Gen platform Value
      → (Value → Gen platform Value)
      → Value
      → Gen platform Value
  unfolding mutate_of_kind
  mutate_kept store opt root generate mutate Value.undefined = generate
  mutate_kept store opt root generate mutate Value.null = generate
  mutate_kept store opt root generate mutate v = do
    other_type ← chance platform mutate_type_prob
    if other_type then generate else mutate_of_kind store opt root generate mutate v

  -- Mutate, at a depth: one unit of fuel for each level.
  unfoldable pub mutate_value_at : ℕ → CafStore → Options → ℕ → ℕ → ℕ → Value → Gen platform Value
  unfolding mutate_kept generate_value
  mutate_value_at zero store opt root call depth v = λ g. out_of_fuel
  mutate_value_at (suc f) store opt root call depth v =
      let generate = generate_value platform store opt root call in
      let deeper = λ (w : Value). mutate_value_at f store opt root call (depth + 1) w in
      let try = do
        renew ← chance platform generate_new_value_prob
        if renew then generate else mutate_kept store opt root generate deeper v
      in if ltb opt.max_depth depth then generate else try

  abbrev pub mutation_fuel : Options → ℕ
  mutation_fuel opt = suc opt.max_depth

  unfoldable pub mutate_value : CafStore → Options → ℕ → ℕ → Value → Gen platform Value
  unfolding mutate_value_at
  mutate_value store opt root call v = mutate_value_at (mutation_fuel opt) store opt root call 1 v
