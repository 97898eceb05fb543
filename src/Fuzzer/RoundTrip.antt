-- ===== src/Fuzzer/RoundTrip.antt =====
-- What src/Fuzzer/TestCaseDeserializer.cpp reads against what src/Fuzzer/TestCaseSerializer.cpp wrote.
-- The two sides keep their arrays at addresses of their own, so a correspondence between these says
-- what it means to be the same value. This file has the notions, the children the proofs.
pub mod Codes
pub mod State
pub mod Leaves
pub mod Elements
pub mod Values
pub mod Args
pub mod Calls
pub mod Sequence
pub mod Whole
use caf.Prelude.{
  ℕ, ◌+◌, ◌^◌, ◌≤◌, ◌<◌, ◌≡◌, Option, none, some, List, [], ◌∷◌, length, get_elem?, lookup, All,
  Bool,
}
use caf.Fuzzer.Value.{Value, Arrays, elements}
use caf.Fuzzer.TestCase.{FunctionCall, TestCase}
use caf.Fuzzer.ObjectPool.{ObjectPool, FloatClass, fpclassify}
use caf.Fuzzer.Serializer.{SerializationContext, this_or_undefined}
use caf.Fuzzer.Deserializer.{DeserializationContext}

-- The address that an array was written from, and the address that it is read back to.
abbrev pub Corr : Type 0
Corr = List (ℕ × ℕ)

abbrev pub Extends : Corr → Corr → Type 0
Extends c c' = (a b : ℕ) → lookup a c ≡ some b → lookup a c' ≡ some b

-- The second value is the first one, up to the address of an array.
abbrev pub SameValue : Corr → Value → Value → Type 0
SameValue c (Value.array a) w = (b : ℕ) × (lookup a c ≡ some b) × (w ≡ Value.array b)
SameValue c v w = w ≡ v

abbrev pub SameValues : Corr → List Value → List Value → Type 0
SameValues c [] [] = Unit {0}
SameValues c [] (w ∷ ws) = ⊥
SameValues c (v ∷ vs) [] = ⊥
SameValues c (v ∷ vs) (w ∷ ws) = SameValue c v w × SameValues c vs ws

-- The array at `a` of the first heap and that at `b` of the second have the same elements.
pub record SameArray (c : Corr) (heap heap' : Arrays) (a b : ℕ) : Type 0 where
  pub from : List Value
  pub to : List Value
  pub found_from : elements heap a ≡ some from
  pub found_to : elements heap' b ≡ some to
  pub same : SameValues c from to

-- A missing receiver comes back as the undefined value.
pub record SameCall (c : Corr) (call call' : FunctionCall) : Type 0 where
  pub func_id : call'.func_id ≡ call.func_id
  pub this : (w : Value) × (call'.this ≡ some w) × SameValue c (this_or_undefined call) w
  pub ctor : call'.ctor ≡ call.ctor
  pub args : SameValues c call.args call'.args

abbrev pub SameCalls : Corr → List FunctionCall → List FunctionCall → Type 0
SameCalls c [] [] = Unit {0}
SameCalls c [] (y ∷ ys) = ⊥
SameCalls c (x ∷ xs) [] = ⊥
SameCalls c (x ∷ xs) (y ∷ ys) = SameCall c x y × SameCalls c xs ys

-- The values that the format can hold: what is written in four bytes fits in four bytes, and a float
-- is a number.
abbrev pub Fits : Value → Type 0
Fits (Value.string s) = length s < 2 ^ 32
Fits (Value.function f) = f < 2 ^ 32
Fits (Value.integer n) = n < 2 ^ 32
Fits (Value.float d) = (d < 2 ^ 64) × (fpclassify d ≡ FloatClass.fp_other)
Fits v = Unit {0}

abbrev pub FitsArrays : Arrays → Type 0
FitsArrays = All (λ xs. (length xs < 2 ^ 32) × All Fits xs)

pub record FitsCall (call : FunctionCall) : Type 0 where
  pub func_id : call.func_id < 2 ^ 32
  pub this : Fits (this_or_undefined call)
  pub args_count : length call.args < 2 ^ 32
  pub args : All Fits call.args

-- The indexes that the writer has given out are those under which the reader keeps the same things.
pub record Sim (c : Corr) (s : SerializationContext) (d : DeserializationContext) (n : ℕ)
    : Type 0 where
  pub next : s.index_alloc ≡ length d.pool
  pub arrays :
      (a k : ℕ)
      → lookup a s.value_indexes ≡ some k
      → (b : ℕ) × (lookup a c ≡ some b)
        × (get_elem? d.pool k ≡ some (some (Value.array b)))
        × (lookup k d.ret_value_index ≡ none)
  pub unknown : (a : ℕ) → lookup a s.value_indexes ≡ none → lookup a c ≡ none
  pub returns :
      (i k : ℕ) → lookup i s.ret_value_indexes ≡ some k → lookup k d.ret_value_index ≡ some i
  pub unused : (k : ℕ) → length d.pool ≤ k → lookup k d.ret_value_index ≡ none
  -- The addresses on the reader's side are those of arrays, and no two arrays share one.
  pub below : (a b : ℕ) → lookup a c ≡ some b → b < n
  pub injective : (a a' b : ℕ) → lookup a c ≡ some b → lookup a' c ≡ some b → a ≡ a'

-- What has been read since `c` was the correspondence and `n` the number of arrays.
pub record Post (heap : Arrays) (c c' : Corr) (s' : SerializationContext) (n : ℕ)
    (d' : DeserializationContext) (heap' : Arrays) : Type 0 where
  pub sim : Sim c' s' d' (length heap')
  pub extends : Extends c c'
  pub grows : n ≤ length heap'
  pub copied :
      (a b : ℕ) → lookup a c' ≡ some b → lookup a c ≡ none → (n ≤ b) × SameArray c' heap heap' a b

-- The arrays of the first heap are there in the second, unchanged.
abbrev pub Keeps : Arrays → Arrays → Type 0
Keeps heap heap' =
    (j : ℕ) (ys : List Value) → elements heap j ≡ some ys → elements heap' j ≡ some ys
