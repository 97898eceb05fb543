-- ===== src/Fuzzer/Serializer/Termination.antt =====
-- How many arrays are left without an index in src/Fuzzer/TestCaseSerializer.cpp, and its fuel.
use caf.Prelude.{
  ℕ, zero, suc, ◌+◌, ◌≤◌, ◌<◌, ◌≡◌, Option, none, some, List, [], ◌∷◌, length, lookup, insert,
  arith, get_elem?_bound, inl, inr, Option-cases,
}
use caf.Infrastructure.Result.{
  Result, Ensures, returns, throws, Ensures->>=, Ensures-or_throw, Ensures-Ends, Ends, null_pointer,
  out_of_range, ◌>>=◌,
}
use caf.Infrastructure.Stream.{Bytes}
use caf.Fuzzer.Value.{Value, Arrays, elements}
use caf.Fuzzer.TestCase.{FunctionCall, TestCase}
use caf.Fuzzer.Serializer.{
  SerializationContext, new_serialization_context, set_next_value, set_next_value_as_return_value,
  get_value_index, Writes, substitute, serialize_all, write_value, serialize_value,
  serialize_function_call, serialize_calls, serialize, this_or_undefined,
}

-- 1 for an address that has no index yet.
abbrev pub is_new : Option ℕ → ℕ
is_new none = 1
is_new (some k) = 0

-- How many of the addresses below `n` have no index yet.
abbrev pub new_below : ℕ → List (ℕ × ℕ) → ℕ
new_below zero m = 0
new_below (suc n) m = is_new (lookup n m) + new_below n m

new_below-insert_le : (n a k : ℕ) (m : List (ℕ × ℕ)) → new_below n (insert a k m) ≤ new_below n m
new_below-insert_le zero a k m = omega arith
new_below-insert_le (suc n) a k m = ground (arith, new_below-insert_le n a k m)

pub new_below-insert_lt :
    (n a k : ℕ) (m : List (ℕ × ℕ))
    → a < n
    → lookup a m ≡ none
    → new_below n (insert a k m) < new_below n m
new_below-insert_lt zero a k m h e = absurd (omega arith)
new_below-insert_lt (suc n) a k m h e =
    ground (arith, new_below-insert_le n a k m, new_below-insert_lt n a k m)

pub new_below-le : (n : ℕ) (m : List (ℕ × ℕ)) → new_below n m ≤ n
new_below-le zero m = omega arith
new_below-le (suc n) m = ground (arith, new_below-le n m)

module _ (heap : Arrays) where
  abbrev pub unvisited : SerializationContext → ℕ
  unvisited c = new_below (length heap) c.value_indexes

  -- No array loses its index, and each index that is given out is paid for by an array.
  abbrev pub Progress : SerializationContext → SerializationContext → Type 0
  Progress c c' =
      (unvisited c' ≤ unvisited c)
      × (c'.index_alloc + unvisited c' ≤ c.index_alloc + unvisited c)
      × (c.index_alloc ≤ c'.index_alloc)

  abbrev pub Shrinks : SerializationContext → Result (Bytes × SerializationContext) → Type 0
  Shrinks c = Ensures (λ p. Progress c p.1)

  -- What a write within the bound `u` promises.
  abbrev pub Bounded : ℕ → (Value → Writes) → Type 0
  Bounded u write = (v : Value) (c : SerializationContext) → unvisited c < u → Shrinks c (write v c)

  pub serialize_all-Shrinks :
      (u : ℕ) (write : Value → Writes)
      → Bounded u write
      → (vs : List Value) (c : SerializationContext) → unvisited c < u
      → Shrinks c (serialize_all write vs c)
  unfolding serialize_all
  serialize_all-Shrinks u write ih [] c h = returns _ (omega arith)
  serialize_all-Shrinks u write ih (v ∷ vs) c h =
      Ensures->>= (λ p. Progress c p.1) _ (ih v c h)
        λ p₁ h₁.
          Ensures->>= (λ p. Progress p₁.1 p.1) _
            (serialize_all-Shrinks u write ih vs p₁.1 (omega arith))
            λ p₂ h₂. returns _ (omega arith)

  write_array-Shrinks :
      (u : ℕ) (write : Value → Writes)
      → Bounded u write
      → (a : ℕ) (c : SerializationContext) → get_value_index a c ≡ none
      → unvisited c < suc u
      → Shrinks c (write_value write heap (Value.array a) c)
  unfolding write_value
  write_array-Shrinks u write ih a c e h =
      Ensures->>= (λ xs. a < length heap) _
        (Ensures-or_throw _ null_pointer (elements heap a) (λ xs. get_elem?_bound heap a xs))
        λ xs bound.
          let fewer = new_below-insert_lt (length heap) a c.index_alloc c.value_indexes bound e in
          Ensures->>= (λ p. Progress (set_next_value a c) p.1) _
            (serialize_all-Shrinks u write ih xs (set_next_value a c) (omega arith))
            λ p h'. returns _ (omega arith)

  substituted-Shrinks :
      (u : ℕ) (write : Value → Writes)
      → Bounded u write
      → (v : Value) (c : SerializationContext) → unvisited c < suc u
      → Shrinks c (substitute v c >>= λ w. write_value write heap w c)
  unfolding substitute write_value
  substituted-Shrinks u write ih (Value.array a) c h = elim (Option-cases (get_value_index a c)) [
    | inl e ↦ rw (e, substitute) (write_array-Shrinks u write ih a c e h)
    | inr (k, e) ↦ rw (e, substitute) (returns _ (omega arith))
  ]
  substituted-Shrinks u write ih (Value.placeholder i) c h =
      elim (Option-cases (lookup i c.ret_value_indexes)) [
        | inl e ↦ rw (e, substitute) (throws out_of_range)
        | inr (k, e) ↦ rw (e, substitute) (returns _ (omega arith))
      ]
  substituted-Shrinks u write ih _ c h = returns _ (omega arith)

  pub serialize_value-Shrinks :
      (f : ℕ) (v : Value) (c : SerializationContext)
      → unvisited c < f
      → Shrinks c (serialize_value f heap v c)
  unfolding serialize_value
  serialize_value-Shrinks zero v c h = absurd (omega arith)
  serialize_value-Shrinks (suc f) v c h =
      substituted-Shrinks f (serialize_value f heap) (λ w c' h'. serialize_value-Shrinks f w c' h')
        v c h

  pub serialize_function_call-Shrinks :
      (f : ℕ) (call : FunctionCall) (c : SerializationContext)
      → unvisited c < f
      → Shrinks c (serialize_function_call f heap call c)
  unfolding serialize_function_call
  serialize_function_call-Shrinks f call c h =
      Ensures->>= (λ p. Progress c p.1) _ (serialize_value-Shrinks f (this_or_undefined call) c h)
        λ p₁ h₁.
          Ensures->>= (λ p. Progress p₁.1 p.1) _
            (serialize_all-Shrinks f (serialize_value f heap) (serialize_value-Shrinks f) call.args
              p₁.1 (omega arith))
            λ p₂ h₂. returns _ (omega arith)

  serialize_calls-Shrinks :
      (f i : ℕ) (calls : List FunctionCall) (c : SerializationContext)
      → unvisited c < f
      → Ensures (λ p. unvisited p.1 ≤ unvisited c) (serialize_calls f heap i calls c)
  unfolding serialize_calls
  serialize_calls-Shrinks f i [] c h = returns _ (omega arith)
  serialize_calls-Shrinks f i (call ∷ calls) c h =
      Ensures->>= (λ p. Progress c p.1) _ (serialize_function_call-Shrinks f call c h)
        λ p₁ h₁.
          Ensures->>= (λ p. unvisited p.1 ≤ unvisited p₁.1) _
            (serialize_calls-Shrinks f (i + 1) calls (set_next_value_as_return_value i p₁.1)
              (omega arith))
            λ p₂ h₂. returns _ (omega arith)

-- Serialising a test case ends, whatever arrays its values reach and however these refer to each
-- other: the fuel that `serialize` hands out never runs out.
pub serialize-Ends : (heap : Arrays) (t : TestCase) → Ends (serialize heap t)
unfolding serialize
serialize-Ends heap t =
    let m = new_below-le (length heap) [] in
    Ensures-Ends (λ _. Unit {0})
      (Ensures->>= (λ p. unvisited heap p.1 ≤ unvisited heap new_serialization_context) _
        (serialize_calls-Shrinks heap (suc (length heap)) 0 t.calls new_serialization_context
          (omega arith))
        λ p h. returns _ tt)
