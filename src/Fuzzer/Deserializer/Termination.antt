-- ===== src/Fuzzer/Deserializer/Termination.antt =====
-- How much of its input each step of src/Fuzzer/TestCaseDeserializer.cpp takes, and its fuel.
use caf.Prelude.{
  ℕ, zero, suc, ◌+◌, ◌≤◌, ◌<◌, ◌≡◌, [], ◌∷◌, length, lookup, arith, inl, inr, Option-cases,
  get_elem?,
}
use caf.Infrastructure.Result.{
  Result, Ensures, returns, throws, Ensures->>=, Ensures-imp, Ensures-or_throw, Ensures-Ends, Ends,
  null_pointer, out_of_range, unreachable, uninitialised, ◌>>=◌,
}
use caf.Infrastructure.Stream.{Bytes, read_int-Ensures, read_float}
use caf.Fuzzer.Value.{Value, ValueKind}
use caf.Fuzzer.TestCase.{FunctionCall, TestCase, push_arg, push_function_call}
use caf.Fuzzer.ObjectPool.{ObjectPool}
use caf.Fuzzer.ObjectPool.Tables.{get_placeholder_value-placed}
use caf.Fuzzer.Deserializer.{
  Reader, Reads, set_next_value_as_return_value, take_int, with_pool, read_chars, kind_of_code,
  push_elements, read_array, read_placeholder, read_value, deserialize_value, push_args,
  deserialize_function_call, deserialize_calls, deserialize,
}

read_chars-Ensures :
    (n : ℕ) (input : Bytes)
    → Ensures (λ (bs, rest). length rest ≤ length input) (read_chars n input)
unfolding read_chars
read_chars-Ensures zero input = returns _ (omega arith)
read_chars-Ensures (suc n) [] = throws uninitialised
read_chars-Ensures (suc n) (b ∷ input) =
    Ensures->>= (λ (bs, rest). length rest ≤ length input) _ (read_chars-Ensures n input)
      λ p h. returns _ (omega arith)

-- The run leaves no more input than there was.
abbrev Shortens : {A : Type 0} → Reader → Result (A × Reader) → Type 0
Shortens r = Ensures (λ p. length p.1.input ≤ length r.input)

take_int-Ensures :
    (n : ℕ) (r : Reader) → Ensures (λ p. length r.input ≡ n + length p.1.input) (take_int n r)
take_int-Ensures n r =
    Ensures->>= (λ p. length r.input ≡ n + length p.1) _ (read_int-Ensures n r.input)
      λ p h. returns _ h

-- What the next value promises, within the bound `u` on the input's length.
abbrev Bounded : ℕ → Reads Value → Type 0
Bounded u next = (r : Reader) → length r.input < u → Shortens r (next r)

module _ (u : ℕ) (next : Reads Value) (ih : Bounded u next) where
  push_elements-Shortens :
      (a n : ℕ) (r : Reader)
      → length r.input < u
      → Ensures (λ r'. length r'.input ≤ length r.input) (push_elements next a n r)
  unfolding push_elements
  push_elements-Shortens a zero r h = returns _ (omega arith)
  push_elements-Shortens a (suc n) r h =
      Ensures->>= (λ p. length p.1.input ≤ length r.input) _ (ih r h)
        λ p₁ h₁.
          Ensures-imp (λ r'. length r'.input ≤ length p₁.1.input) _
            (push_elements-Shortens a n _ (omega arith)) λ r' h'. omega arith

  read_array-Shortens : (r : Reader) → length r.input < u → Shortens r (read_array next r)
  unfolding read_array
  read_array-Shortens r h =
      Ensures->>= (λ p. length r.input ≡ 4 + length p.1.input) _ (take_int-Ensures 4 _)
        λ p₁ h₁.
          Ensures->>= (λ r'. length r'.input ≤ length p₁.1.input) _
            (push_elements-Shortens (length r.objects.array_values) p₁.0 p₁.1 (omega arith))
            λ r' h'. returns _ (omega arith)

read_placeholder-Shortens : (r : Reader) → Shortens r (read_placeholder r)
unfolding read_placeholder
read_placeholder-Shortens r =
    Ensures->>= (λ p. length r.input ≡ 4 + length p.1.input) _ (take_int-Ensures 4 r)
      λ p₁ h₁. elim (Option-cases (lookup p₁.0 p₁.1.context.ret_value_index)) [
        | inr (i, e) ↦ rw (e, get_placeholder_value-placed i p₁.1.objects) (returns _ (omega arith))
        | inl e ↦ rw e (
            Ensures->>= (λ _. Unit {0}) _
              (Ensures-or_throw _ out_of_range (get_elem? p₁.1.context.pool p₁.0) λ _ _. tt)
              λ slot _.
                Ensures->>= (λ _. Unit {0}) _ (Ensures-or_throw _ null_pointer slot λ _ _. tt)
                  λ v _. returns _ (omega arith))
      ]

-- A value that is an integer of `n` bytes and what the pool makes of it.
leaf-Shortens :
    (n : ℕ) (get : ℕ → ObjectPool → Value × ObjectPool) (r : Reader)
    → Shortens r (take_int n r >>= λ (v, r'). with_pool (get v) r')
leaf-Shortens n get r =
    Ensures->>= (λ p. length r.input ≡ n + length p.1.input) _ (take_int-Ensures n r)
      λ p h. returns _ (omega arith)

read_value-Shortens :
    (u : ℕ) (next : Reads Value)
    → Bounded u next
    → (k : ValueKind) (r : Reader) → length r.input < u
    → Shortens r (read_value next k r)
unfolding read_value read_float
read_value-Shortens u next ih ValueKind.undefined r h = returns _ (omega arith)
read_value-Shortens u next ih ValueKind.null r h = returns _ (omega arith)
read_value-Shortens u next ih ValueKind.function r h = leaf-Shortens 4 _ r
read_value-Shortens u next ih ValueKind.boolean r h = leaf-Shortens 1 _ r
read_value-Shortens u next ih ValueKind.string r h =
    Ensures->>= (λ p. length r.input ≡ 4 + length p.1.input) _ (take_int-Ensures 4 r)
      λ p₁ h₁.
        Ensures->>= (λ p. length p.1.input ≤ length p₁.1.input) _
          (Ensures->>= (λ p. length p.1 ≤ length p₁.1.input) _ (read_chars-Ensures p₁.0 p₁.1.input)
            λ p h'. returns _ h')
          λ p₂ h₂. returns _ (omega arith)
read_value-Shortens u next ih ValueKind.integer r h = leaf-Shortens 4 _ r
read_value-Shortens u next ih ValueKind.float r h = leaf-Shortens 8 _ r
read_value-Shortens u next ih ValueKind.array r h = read_array-Shortens u next ih r h
read_value-Shortens u next ih ValueKind.placeholder r h = read_placeholder-Shortens r

deserialize_value-Shortens :
    (f : ℕ) (r : Reader) → length r.input < f → Shortens r (deserialize_value f r)
unfolding deserialize_value
deserialize_value-Shortens zero r h = absurd (omega arith)
deserialize_value-Shortens (suc f) r h =
    Ensures->>= (λ p. length r.input ≡ 1 + length p.1.input) _ (take_int-Ensures 1 r)
      λ p₁ h₁.
        Ensures->>= (λ _. Unit {0}) _ (Ensures-or_throw _ unreachable (kind_of_code p₁.0) λ _ _. tt)
          λ k _.
            Ensures-imp (λ p. length p.1.input ≤ length p₁.1.input) _
              (read_value-Shortens f (deserialize_value f) (deserialize_value-Shortens f) k p₁.1
                (omega arith))
              λ p₂ h₂. omega arith

push_args-Shortens :
    (u : ℕ) (next : Reads Value)
    → Bounded u next
    → (n : ℕ) (call : FunctionCall) (r : Reader) → length r.input < u
    → Shortens r (push_args next n call r)
unfolding push_args
push_args-Shortens u next ih zero call r h = returns _ (omega arith)
push_args-Shortens u next ih (suc n) call r h =
    Ensures->>= (λ p. length p.1.input ≤ length r.input) _ (ih r h)
      λ p₁ h₁.
        Ensures-imp (λ p. length p.1.input ≤ length p₁.1.input) _
          (push_args-Shortens u next ih n (push_arg p₁.0 call) p₁.1 (omega arith))
          λ p₂ h₂. omega arith

deserialize_function_call-Shortens :
    (f : ℕ) (r : Reader) → length r.input < f → Shortens r (deserialize_function_call f r)
unfolding deserialize_function_call
deserialize_function_call-Shortens f r h =
    Ensures->>= (λ p. length r.input ≡ 4 + length p.1.input) _ (take_int-Ensures 4 r)
      λ p₁ h₁.
        Ensures->>= (λ p. length p.1.input ≤ length p₁.1.input) _
          (deserialize_value-Shortens f p₁.1 (omega arith))
          λ p₂ h₂.
            Ensures->>= (λ p. length p₂.1.input ≡ 1 + length p.1.input) _ (take_int-Ensures 1 p₂.1)
              λ p₃ h₃.
                Ensures->>= (λ p. length p₃.1.input ≡ 4 + length p.1.input) _
                  (take_int-Ensures 4 p₃.1)
                  λ p₄ h₄.
                    Ensures-imp (λ p. length p.1.input ≤ length p₄.1.input) _
                      (push_args-Shortens f (deserialize_value f) (deserialize_value-Shortens f)
                        p₄.0 _ p₄.1 (omega arith))
                      λ p₅ h₅. omega arith

deserialize_calls-Shortens :
    (f i n : ℕ) (t : TestCase) (r : Reader)
    → length r.input < f
    → Shortens r (deserialize_calls f i n t r)
unfolding deserialize_calls
deserialize_calls-Shortens f i zero t r h = returns _ (omega arith)
deserialize_calls-Shortens f i (suc n) t r h =
    Ensures->>= (λ p. length p.1.input ≤ length r.input) _
      (deserialize_function_call-Shortens f r h)
      λ p₁ h₁.
        Ensures-imp (λ p. length p.1.input ≤ length p₁.1.input) _
          (deserialize_calls-Shortens f (i + 1) n (push_function_call p₁.0 t)
            (set_next_value_as_return_value i p₁.1) (omega arith))
          λ p₂ h₂. omega arith

-- Deserialising any input comes to an end, whatever the counts in the input say: with a test case, by
-- an error, or where the input is too short and a variable that Read left unwritten is used, which C++
-- leaves undefined.
pub deserialize-Ends : (objects : ObjectPool) (input : Bytes) → Ends (deserialize objects input)
unfolding deserialize
deserialize-Ends objects input =
    Ensures-Ends (λ _. Unit {0})
      (Ensures->>= (λ p. length input ≡ 4 + length p.1.input) _ (take_int-Ensures 4 _)
        λ p₁ h₁.
          Ensures->>= (λ p. length p₁.1.input ≡ 4 + length p.1.input) _ (take_int-Ensures 4 p₁.1)
            λ p₂ h₂.
              Ensures-imp (λ p. length p.1.input ≤ length p₂.1.input) _
                (deserialize_calls-Shortens (suc (length input)) 0 p₂.0 _ p₂.1 (omega arith))
                λ p₃ h₃. tt)
