-- ===== src/Fuzzer/Serializer/Total.antt =====
-- The lookups of src/Fuzzer/TestCaseSerializer.cpp, for a test case in scope.
use caf.Prelude.{
  ℕ, zero, suc, ◌+◌, ◌<◌, ◌≡◌, refl, ◌∙◌, some, List, [], ◌∷◌, length, All, lookup, ◌==◌,
  Bool-cases, arith, get_elem?_total, inl, inr, Option-cases,
}
use caf.Infrastructure.Result.{Result, ok, Succeeds, returns_ok, Succeeds->>=, Succeeds-ok}
use caf.Infrastructure.Stream.{Bytes}
use caf.Fuzzer.Value.{Value, Arrays}
use caf.Fuzzer.TestCase.{FunctionCall, TestCase}
use caf.Fuzzer.Scope.{InScope, CallInScope, CallsInScope, ArraysInScope, IsScoped}
use caf.Fuzzer.Serializer.{
  SerializationContext, new_serialization_context, set_next_value, set_next_value_as_return_value,
  substitute, serialize_all, write_value, serialize_value, serialize_function_call, serialize_calls,
  serialize, this_or_undefined,
}
use caf.Fuzzer.Serializer.Termination.{Progress, unvisited, new_below-insert_lt, new_below-le}

-- The return values of the calls before `i` have indexes.
abbrev Returned : ℕ → SerializationContext → Type 0
Returned i c = (j : ℕ) → j < i → (k : ℕ) × (lookup j c.ret_value_indexes ≡ some k)

module _ (heap : Arrays) (level : ℕ → ℕ) (scoped : ArraysInScope level heap) where
  abbrev Scoped : ℕ → Value → Type 0
  Scoped i = InScope level (length heap) i

  -- What a write leaves: it uses no index twice and gives none to a return value.
  abbrev Kept : SerializationContext → SerializationContext → Type 0
  Kept c c' = Progress heap c c' × (c'.ret_value_indexes ≡ c.ret_value_indexes)

  abbrev Written : SerializationContext → Result (Bytes × SerializationContext) → Type 0
  Written c = Succeeds (λ p. Kept c p.1)

  Returned-Kept :
      (i : ℕ) (c c' : SerializationContext)
      → c'.ret_value_indexes ≡ c.ret_value_indexes
      → Returned i c
      → Returned i c'
  Returned-Kept i c c' e h j lt = let (k, found) = h j lt in (k, rw e found)

  serialize_all-Written :
      (f i : ℕ)
      → ((v : Value) (c : SerializationContext)
          → unvisited heap c < f
          → Returned i c
          → Scoped i v
          → Written c (serialize_value f heap v c))
      → (vs : List Value) (c : SerializationContext) → unvisited heap c < f
      → Returned i c
      → All (Scoped i) vs
      → Written c (serialize_all (serialize_value f heap) vs c)
  unfolding serialize_all
  serialize_all-Written f i ih [] c h ret s = returns_ok _ ((omega arith), refl)
  serialize_all-Written f i ih (v ∷ vs) c h ret s =
      Succeeds->>= (λ p. Kept c p.1) _ (ih v c h ret s.0)
        λ p₁ h₁.
          Succeeds->>= (λ p. Kept p₁.1 p.1) _
            (serialize_all-Written f i ih vs p₁.1 (omega (arith, h₁.0))
              (Returned-Kept i c p₁.1 h₁.1 ret) s.1)
            λ p₂ h₂. returns_ok _ ((omega (arith, h₁.0, h₂.0)), h₂.1 ∙ h₁.1)

  serialize_value-Written :
      (f i : ℕ) (v : Value) (c : SerializationContext)
      → unvisited heap c < f
      → Returned i c
      → Scoped i v
      → Written c (serialize_value f heap v c)
  unfolding serialize_value substitute write_value
  serialize_value-Written zero i v c h ret s = absurd (omega arith)
  serialize_value-Written (suc f) i (Value.placeholder j) c h ret s =
      let (k, e) = ret j s in rw (e, substitute) (returns_ok _ ((omega arith), refl))
  serialize_value-Written (suc f) i (Value.array a) c h ret s =
      elim (Option-cases (lookup a c.value_indexes)) [
        | inr (k, e) ↦ rw (e, substitute) (returns_ok _ ((omega arith), refl))
        | inl e ↦
            let (xs, found) = get_elem?_total heap a s.0 in
            let fewer = new_below-insert_lt (length heap) a c.index_alloc c.value_indexes s.0 e in
            rw (e, substitute, found, write_value)
              (Succeeds->>= (λ p. Kept (set_next_value a c) p.1) _
                (serialize_all-Written f (level a) (serialize_value-Written f (level a)) xs
                  (set_next_value a c) (omega arith) (λ j lt. ret j (omega (arith, s.1)))
                  (scoped a xs found))
                λ p k. returns_ok _ ((omega (arith, k.0)), k.1))
      ]
  serialize_value-Written (suc f) i _ c h ret s = returns_ok _ ((omega arith), refl)

  serialize_function_call-Written :
      (f i : ℕ) (call : FunctionCall) (c : SerializationContext)
      → unvisited heap c < f
      → Returned i c
      → CallInScope level (length heap) i call
      → Written c (serialize_function_call f heap call c)
  unfolding serialize_function_call
  serialize_function_call-Written f i call c h ret s =
      Succeeds->>= (λ p. Kept c p.1) _
        (serialize_value-Written f i (this_or_undefined call) c h ret s.0)
        λ p₁ h₁.
          Succeeds->>= (λ p. Kept p₁.1 p.1) _
            (serialize_all-Written f i (serialize_value-Written f i) call.args p₁.1
              (omega (arith, h₁.0)) (Returned-Kept i c p₁.1 h₁.1 ret) s.1)
            λ p₂ h₂. returns_ok _ ((omega (arith, h₁.0, h₂.0)), h₂.1 ∙ h₁.1)

  Returned-next :
      (i : ℕ) (c : SerializationContext)
      → Returned i c
      → Returned (i + 1) (set_next_value_as_return_value i c)
  Returned-next i c ret j lt = elim (Bool-cases (i == j)) [
    | inl e ↦ (c.index_alloc, rw e)
    | inr e ↦ let (k, found) = ret j (ground arith) in (k, rw e found)
  ]

  serialize_calls-Written :
      (f i : ℕ) (calls : List FunctionCall) (c : SerializationContext)
      → unvisited heap c < f
      → Returned i c
      → CallsInScope level (length heap) i calls
      → Succeeds (λ _. Unit {0}) (serialize_calls f heap i calls c)
  unfolding serialize_calls
  serialize_calls-Written f i [] c h ret s = returns_ok _ tt
  serialize_calls-Written f i (call ∷ calls) c h ret s =
      Succeeds->>= (λ p. Kept c p.1) _ (serialize_function_call-Written f i call c h ret s.0)
        λ p₁ h₁.
          Succeeds->>= (λ _. Unit {0}) _
            (serialize_calls-Written f (i + 1) calls (set_next_value_as_return_value i p₁.1)
              (omega (arith, h₁.0)) (Returned-next i p₁.1 (Returned-Kept i c p₁.1 h₁.1 ret)) s.1)
            λ p₂ h₂. returns_ok _ tt

-- A test case whose calls refer only to earlier calls and to arrays that exist is serialised: no
-- index is missing and no pointer dangles.
pub serialize-total :
    (heap : Arrays) (t : TestCase) (level : ℕ → ℕ)
    → IsScoped level heap t
    → (bs : Bytes) × (serialize heap t ≡ ok bs)
unfolding serialize
serialize-total heap t level s =
    let (bs, e, _) =
      Succeeds-ok (λ _. Unit {0})
        (Succeeds->>= (λ _. Unit {0}) (λ _. Unit {0})
          (serialize_calls-Written heap level s.arrays (suc (length heap)) 0 t.calls
            new_serialization_context (omega (arith, new_below-le (length heap) []))
            (λ j lt. absurd (omega arith)) s.calls)
          λ p h. returns_ok _ tt) in
    (bs, e)
