-- ===== src/Fuzzer/Mutator/Values/Termination.antt =====
-- The depth to which src/Fuzzer/TestCaseMutator.cpp mutates a value, and its fuel.
use caf.Prelude.{
  inl, inr, ltb, get_elem?, ℕ, zero, suc, ◌+◌, ◌-◌, ◌≤◌, ◌<◌, List, [], ◌∷◌, ◌++◌, length, take,
  drop, arith, ltb, Option-cases, get_elem?, inl, inr, if◌then◌else◌,
}
use caf.Infrastructure.Result.{
  Error, Ensures, returns, Ensures->>=, Ensures-or_throw, Ensures-Ends, Ends,
}
use caf.Infrastructure.Random.{Platform, with_probability}
use caf.Basic.CafStore.{CafStore}
use caf.Basic.CafStore.Entries.{IsValid}
use caf.Fuzzer.Value.{Value, Arrays, push, elements, get_element}
use caf.Fuzzer.ObjectPool.{create_array_value}
use caf.Fuzzer.Generation.{GenState, ◌>>=◌, lift}
use caf.Fuzzer.Generator.{Gen, Options, chance, address, generate_value}
use caf.Fuzzer.Generator.Runs.{Any}
use caf.Fuzzer.Generator.Values.{HasDescendents, generate_value-Runs, generate_function_value-Runs}
use caf.Fuzzer.Mutator.Values.{
  exchange, exchanged, ArrayMutator, array_mutators, elements_of, push_all, new_array_of,
  apply_array_mutator, choose_array_mutator, mutate_array, mutate_of_kind, mutate_kept,
  mutate_value_at, mutate_value, generate_new_value_prob, mutate_type_prob,
}
use caf.Fuzzer.Mutator.Halting.{
  Halts, Halts->>=, Halts-pure, Halts-fail, Halts-draw, or_throw-Halts, Runs-Halts, Halts-from_pool,
  Halts-arrays, Halts-set_arrays, choose-Halts, next_size-Halts, if-Halts, if_not-Halts,
}
use caf.Fuzzer.Mutator.Values.Leaves.{mutate_string-Halts, mutate_integer-Halts, mutate_float-Halts}

exchanged-Ensures : (xs : List Value) (i j k n : ℕ) → Ensures Any (exchanged xs i j k n)
unfolding exchanged
exchanged-Ensures xs i j k zero = returns [] tt
exchanged-Ensures xs i j k (suc n) =
    Ensures->>= Any _
      (Ensures-or_throw Any Error.out_of_range (get_elem? xs (exchange i j k)) (λ v e. tt))
      λ v t. Ensures->>= Any _ (exchanged-Ensures xs i j (k + 1) n) λ vs t. returns (v ∷ vs) tt

exchanged-Halts :
    {S : Type 0} (xs : List Value) (i j k n : ℕ) → Halts {S = S} (lift (exchanged xs i j k n))
exchanged-Halts xs i j k n = record {
  ends = λ g. Ensures->>= Any _ (exchanged-Ensures xs i j k n) (λ vs t. returns (vs, g) tt);
}

module _ (platform : Platform) where
  elements_of-Halts : (a : ℕ) → Halts (elements_of platform a)
  unfolding elements_of
  elements_of-Halts a =
      Halts->>= Halts-arrays λ heap. or_throw-Halts Error.null_pointer (elements heap a)

  push_all-Halts : (a : ℕ) (vs : List Value) → Halts (push_all platform a vs)
  unfolding push_all
  push_all-Halts a [] = Halts-pure tt
  push_all-Halts a (v ∷ vs) =
      Halts->>= Halts-arrays
        λ heap. Halts->>= (Halts-set_arrays (push a v heap)) λ t. push_all-Halts a vs

  new_array_of-Halts : (vs : List Value) → Halts (new_array_of platform vs)
  unfolding new_array_of
  new_array_of-Halts vs =
      Halts->>= (Halts-from_pool create_array_value)
        λ w. Halts->>= (push_all-Halts (address platform w) vs) λ t. Halts-pure w

  choose_array_mutator-Halts : (ms : List ArrayMutator) → Halts (choose_array_mutator platform ms)
  choose_array_mutator-Halts [] = Halts-fail Error.assertion
  choose_array_mutator-Halts (m ∷ ms) = choose-Halts platform (m ∷ ms)

  get_element-Halts :
      (a i : ℕ) (heap : Arrays) → Halts {S = platform.Engine} (lift (get_element a i heap))
  unfolding get_element
  get_element-Halts a i heap = elim (Option-cases (elements heap a)) [
    | inl e ↦ rw (e, get_element) (Halts-fail Error.out_of_range)
    | inr (xs, e) ↦ rw (e, get_element) (or_throw-Halts Error.out_of_range (get_elem? xs i))
  ]

  module _ (generate : Gen platform Value) (g_halts : Halts generate) where
    apply_array_mutator-Halts :
        (mutate : Value → Gen platform Value)
        → ((v : Value) → Halts (mutate v))
        → (m : ArrayMutator) (a : ℕ) → Halts (apply_array_mutator platform generate mutate m a)
    unfolding apply_array_mutator
    apply_array_mutator-Halts mutate h ArrayMutator.push_element a =
        Halts->>= g_halts
          λ v. Halts->>= (elements_of-Halts a) λ xs. new_array_of-Halts (xs ++ v ∷ [])
    apply_array_mutator-Halts mutate h ArrayMutator.remove_element a =
        Halts->>= (elements_of-Halts a) λ xs.
          Halts->>= (next_size-Halts platform 0 (length xs - 1))
            λ pos. new_array_of-Halts (take pos xs ++ drop (pos + 1) xs)
    apply_array_mutator-Halts mutate h ArrayMutator.mutate_element a =
        Halts->>= (elements_of-Halts a) λ xs.
          Halts->>= (next_size-Halts platform 0 (length xs - 1)) λ pos.
            Halts->>= Halts-arrays λ heap. Halts->>= (get_element-Halts a pos heap) λ old.
              Halts->>= (h old) λ v.
                Halts->>= (elements_of-Halts a)
                  λ ys. new_array_of-Halts (take pos ys ++ v ∷ drop (pos + 1) ys)
    apply_array_mutator-Halts mutate h ArrayMutator.exchange_elements a =
        Halts->>= (elements_of-Halts a) λ xs.
          Halts->>= (next_size-Halts platform 0 (length xs - 2)) λ pos1.
            Halts->>= (next_size-Halts platform (pos1 + 1) (length xs - 1)) λ pos2.
              Halts->>= (exchanged-Halts xs pos1 pos2 0 (length xs))
                λ swapped. new_array_of-Halts swapped

    mutate_array-Halts :
        (opt : Options) (mutate : Value → Gen platform Value)
        → ((v : Value) → Halts (mutate v))
        → (a : ℕ) → Halts (mutate_array platform opt generate mutate a)
    unfolding mutate_array
    mutate_array-Halts opt mutate h a = Halts->>= (elements_of-Halts a) λ xs.
        Halts->>= (choose_array_mutator-Halts (array_mutators opt (length xs)))
          λ m. apply_array_mutator-Halts mutate h m a

module _ (platform : Platform) (store : CafStore) (opt : Options) (root : ℕ) (valid : IsValid store)
    (below : HasDescendents store root) where
  module _ (generate : Gen platform Value) (g_halts : Halts generate)
      (mutate : Value → Gen platform Value) (m_halts : (v : Value) → Halts (mutate v)) where
    mutate_of_kind-Halts :
        (v : Value) → Halts (mutate_of_kind platform store opt root generate mutate v)
    unfolding mutate_of_kind
    mutate_of_kind-Halts (Value.function f) =
        Runs-Halts (generate_function_value-Runs platform store opt root valid below)
    mutate_of_kind-Halts (Value.boolean b) = Halts-from_pool _
    mutate_of_kind-Halts (Value.string s) = mutate_string-Halts platform opt s
    mutate_of_kind-Halts (Value.integer n) = mutate_integer-Halts platform n
    mutate_of_kind-Halts (Value.float d) = mutate_float-Halts platform d
    mutate_of_kind-Halts (Value.array a) =
        mutate_array-Halts platform generate g_halts opt mutate m_halts a
    mutate_of_kind-Halts (Value.placeholder j) = g_halts
    mutate_of_kind-Halts Value.undefined = Halts-fail Error.unreachable
    mutate_of_kind-Halts Value.null = Halts-fail Error.unreachable

    typed-Halts :
        (v : Value)
        → Halts (
            chance platform mutate_type_prob >>= λ other.
            if other then generate else mutate_of_kind platform store opt root generate mutate v)
    typed-Halts v =
        Halts->>= (Halts-draw (with_probability platform mutate_type_prob))
          λ other. if-Halts platform other g_halts (mutate_of_kind-Halts v)

    mutate_kept-Halts : (v : Value) → Halts (mutate_kept platform store opt root generate mutate v)
    unfolding mutate_kept
    mutate_kept-Halts Value.undefined = g_halts
    mutate_kept-Halts Value.null = g_halts
    mutate_kept-Halts (Value.function f) = typed-Halts (Value.function f)
    mutate_kept-Halts (Value.boolean b) = typed-Halts (Value.boolean b)
    mutate_kept-Halts (Value.string s) = typed-Halts (Value.string s)
    mutate_kept-Halts (Value.integer n) = typed-Halts (Value.integer n)
    mutate_kept-Halts (Value.float d) = typed-Halts (Value.float d)
    mutate_kept-Halts (Value.array a) = typed-Halts (Value.array a)
    mutate_kept-Halts (Value.placeholder j) = typed-Halts (Value.placeholder j)

  mutate_value_at-Halts :
      (f call depth : ℕ) (v : Value)
      → opt.max_depth + 2 ≤ f + depth
      → 0 < f
      → Halts (mutate_value_at platform f store opt root call depth v)
  unfolding mutate_value_at
  mutate_value_at-Halts zero call depth v h k = absurd (omega arith)
  mutate_value_at-Halts (suc f) call depth v h k =
      let generate = generate_value platform store opt root call in
      let g_halts = Runs-Halts (generate_value-Runs platform store opt root valid below call) in
      let deeper = λ (w : Value). mutate_value_at platform f store opt root call (depth + 1) w in
      if_not-Halts platform (ltb opt.max_depth depth) g_halts λ shallow.
        Halts->>= (Halts-draw (with_probability platform generate_new_value_prob)) λ renew.
          if-Halts platform renew g_halts (
            mutate_kept-Halts generate g_halts deeper
              (λ w.
                mutate_value_at-Halts f call (depth + 1) w (omega arith)
                  (ground (arith, shallow, h)))
              v)

  -- Over a valid store, with a function below the root entry, mutating a value ends, with a value or
  -- by an error, however deeply the arrays are nested, also where an array contains itself.
  pub mutate_value-Ends :
      (call : ℕ) (v : Value) (g : GenState platform.Engine)
      → Ends (mutate_value platform store opt root call v g)
  unfolding mutate_value
  mutate_value-Ends call v g =
      Ensures-Ends Any
        ((mutate_value_at-Halts (suc opt.max_depth) call 1 v (omega arith) (omega arith)).ends g)
