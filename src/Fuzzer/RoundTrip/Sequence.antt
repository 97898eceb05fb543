-- ===== src/Fuzzer/RoundTrip/Sequence.antt =====
-- The loop over the calls.
use caf.Prelude.{
  ℕ, suc, ◌+◌, ◌^◌, ◌≤◌, ◌<◌, ◌≡◌, refl, ap, ◌∙◌, none, List, [], ◌∷◌, ◌++◌, length, insert, arith,
  length-append, append_assoc, append-nil, All,
}
use caf.Infrastructure.Result.{Result, ok, throw, out_of_fuel, ◌>>=◌, Ensures-ok}
use caf.Infrastructure.Stream.{Bytes}
use caf.Fuzzer.Value.{Arrays}
use caf.Fuzzer.ObjectPool.{ObjectPool}
use caf.Fuzzer.ObjectPool.Contents.{IsValid}
use caf.Fuzzer.Serializer.{SerializationContext}
use caf.Fuzzer.Serializer.Termination.{unvisited, Progress, Shrinks}
use caf.Fuzzer.Deserializer.{DeserializationContext, Reader}
use caf.Fuzzer.RoundTrip.{Corr, Extends, FitsArrays, Sim, Post, Keeps}
use caf.Fuzzer.RoundTrip.Codes.{reader}
use caf.Fuzzer.RoundTrip.State.{SameValue-Extends, SameValues-Extends, Post-refl, Post-trans}
use caf.Fuzzer.RoundTrip.{SameCall, FitsCall}
use caf.Fuzzer.TestCase.{FunctionCall}
use caf.Fuzzer.Serializer.{serialize_function_call, this_or_undefined}
use caf.Fuzzer.Serializer.Termination.{serialize_function_call-Shrinks}
use caf.Fuzzer.Deserializer.{deserialize_function_call}
use caf.Fuzzer.RoundTrip.{SameCalls}
use caf.Fuzzer.RoundTrip.State.{Sim-set_next_value_as_return_value, with_return}
use caf.Fuzzer.TestCase.{TestCase, push_function_call}
use caf.Fuzzer.Serializer.{set_next_value_as_return_value, serialize_calls}
use caf.Fuzzer.Deserializer.{deserialize_calls}
use caf.Fuzzer.RoundTrip.Calls.{CallBack, RestoredCall, function_call-Restored}

SameCall-Extends :
    (c c' : Corr) → Extends c c' → (x y : FunctionCall) → SameCall c x y → SameCall c' x y
SameCall-Extends c c' h x y s =
    let (w, e, same) = s.this in
    record {
      func_id = s.func_id;
      this = (w, e, SameValue-Extends c c' h (this_or_undefined x) w same);
      ctor = s.ctor;
      args = SameValues-Extends c c' h x.args y.args s.args;
    }

-- What the reader has done after the calls `xs`, added to the test case `t`.
pub record CallsBack (heap : Arrays) (c : Corr) (s' : SerializationContext) (p : ObjectPool)
    (t : TestCase) (xs : List FunctionCall) (rest : Bytes) (result : Result (TestCase × Reader))
    : Type 0 where
  pub corr : Corr
  pub to : List FunctionCall
  pub objects : ObjectPool
  pub context : DeserializationContext
  pub reads : result ≡ ok (record t { calls = t.calls ++ to }, reader rest objects context)
  pub valid : IsValid objects
  pub post : Post heap c corr s' (length p.array_values) context objects.array_values
  pub keeps : Keeps p.array_values objects.array_values
  pub same : SameCalls corr xs to

abbrev pub RestoredCalls :
    Arrays
    → ℕ
    → ℕ
    → List FunctionCall
    → SerializationContext
    → Result (Bytes × SerializationContext)
    → Type 0
RestoredCalls heap g i xs s (ok (bs, s')) =
    (c : Corr) (p : ObjectPool) (d : DeserializationContext) (rest : Bytes) (t : TestCase)
    → length (bs ++ rest) < g
    → Sim c s d (length p.array_values)
    → IsValid p
    → CallsBack heap c s' p t xs rest
        (deserialize_calls g i (length xs) t (reader (bs ++ rest) p d))
RestoredCalls heap g i xs s _ = Unit {0}

deserialize_calls-suc :
    (g i n : ℕ) (t : TestCase) (r : Reader) (call : FunctionCall) (input : Bytes) (p : ObjectPool)
    (d : DeserializationContext)
    → deserialize_function_call g r ≡ ok (call, reader input p d)
    → deserialize_calls g i (suc n) t r
      ≡ deserialize_calls g (i + 1) n (push_function_call call t) (
          reader input p (record {
            pool = d.pool ++ none ∷ [];
            ret_value_index = insert (length d.pool) i d.ret_value_index;
          }))
unfolding deserialize_calls
deserialize_calls-suc g i n t r call input p d e = rw (e, deserialize_calls)

module _ (heap : Arrays) (g i : ℕ) (x : FunctionCall) (xs : List FunctionCall)
    (s s₁ s₂ : SerializationContext) (bs bs₂ : Bytes) (c : Corr) (p : ObjectPool)
    (d : DeserializationContext) (rest : Bytes) (t : TestCase)
    (first : CallBack heap c s₁ p x
      (bs₂ ++ rest)
      (deserialize_function_call g (reader (bs ++ (bs₂ ++ rest)) p d))) where
  abbrev returned : DeserializationContext
  returned =
      with_return first.corr s₁ first.context (length first.objects.array_values) first.post.sim i

  cons-CallsBack :
      CallsBack heap first.corr s₂ first.objects (push_function_call first.to t) xs rest (
        deserialize_calls g
          (i + 1)
          (length xs)
          (push_function_call first.to t)
          (reader (bs₂ ++ rest) first.objects returned))
      → CallsBack heap c s₂ p t
          (x ∷ xs)
          rest
          (deserialize_calls g i (suc (length xs)) t (reader ((bs ++ bs₂) ++ rest) p d))
  unfolding push_function_call
  cons-CallsBack more = record {
    corr = more.corr;
    to = first.to ∷ more.to;
    objects = more.objects;
    context = more.context;
    reads = rw append_assoc (
        deserialize_calls-suc g i (length xs) t _ first.to _ first.objects first.context first.reads
        ∙ more.reads
        ∙ ap
            (λ (cs : List FunctionCall).
              ok (record t { calls = cs }, reader rest more.objects more.context))
            (append_assoc t.calls (first.to ∷ []) more.to));
    valid = more.valid;
    post =
        Post-trans heap first.objects.array_values more.objects.array_values c first.corr more.corr
          s₁ s₂ _ _ first.context more.context first.post more.post first.post.grows
          (λ j zs le e. more.keeps j zs e);
    keeps = λ j zs e. more.keeps j zs (first.keeps j zs e);
    same =
        (SameCall-Extends first.corr more.corr more.post.extends x first.to first.same, more.same);
  }

tail-RestoredCalls :
    (heap : Arrays) (g i : ℕ) (x : FunctionCall) (xs : List FunctionCall)
    (s s₁ : SerializationContext) (bs : Bytes)
    → RestoredCall heap g x s (ok (bs, s₁))
    → (r : Result (Bytes × SerializationContext))
    → RestoredCalls heap g (i + 1) xs (set_next_value_as_return_value i s₁) r
    → RestoredCalls heap g i (x ∷ xs) s (r >>= λ (bs', s₂). ok (bs ++ bs', s₂))
tail-RestoredCalls heap g i x xs s s₁ bs head (throw e) tail = tt
tail-RestoredCalls heap g i x xs s s₁ bs head out_of_fuel tail = tt
tail-RestoredCalls heap g i x xs s s₁ bs head (ok (bs₂, s₂)) tail = λ c p d rest t small sim valid.
    let small' : length (bs ++ (bs₂ ++ rest)) < g = rw (append_assoc bs bs₂ rest) at small in
    let first = head c p d (bs₂ ++ rest) small' sim valid in
    let n = length first.objects.array_values in
    cons-CallsBack heap g i x xs s s₁ s₂ bs bs₂ c p d rest t first (
      tail first.corr first.objects (with_return first.corr s₁ first.context n first.post.sim i)
        rest (push_function_call first.to t) (omega (arith, length-append bs (bs₂ ++ rest)))
        (Sim-set_next_value_as_return_value first.corr s₁ first.context n first.post.sim i)
        first.valid)

head-RestoredCalls :
    (heap : Arrays) (f g i : ℕ) (x : FunctionCall) (xs : List FunctionCall)
    (s : SerializationContext)
    → ((s₁ : SerializationContext)
        → Progress heap s s₁
        → RestoredCalls heap g
            (i + 1)
            xs
            (set_next_value_as_return_value i s₁)
            (serialize_calls f heap (i + 1) xs (set_next_value_as_return_value i s₁)))
    → (r : Result (Bytes × SerializationContext)) → RestoredCall heap g x s r
    → Shrinks heap s r
    → RestoredCalls heap g i (x ∷ xs) s (
        r >>= λ (bs, s₁).
        serialize_calls f heap (i + 1) xs (set_next_value_as_return_value i s₁) >>= λ (bs', s₂).
        ok (bs ++ bs', s₂))
head-RestoredCalls heap f g i x xs s tail (throw e) back progress = tt
head-RestoredCalls heap f g i x xs s tail out_of_fuel back progress = tt
head-RestoredCalls heap f g i x xs s tail (ok (bs, s₁)) back progress =
    tail-RestoredCalls heap g i x xs s s₁ bs back
      (serialize_calls f heap (i + 1) xs (set_next_value_as_return_value i s₁))
      (tail s₁ (Ensures-ok (λ p. Progress heap s p.1) refl progress))

pub calls-Restored :
    (heap : Arrays) (f g i : ℕ) (xs : List FunctionCall) (s : SerializationContext)
    → FitsArrays heap
    → All FitsCall xs
    → unvisited heap s < f
    → s.index_alloc + unvisited heap s + length xs ≤ 2 ^ 32
    → RestoredCalls heap g i xs s (serialize_calls f heap i xs s)
unfolding serialize_calls deserialize_calls
calls-Restored heap f g i [] s all_fit fits fuel room = λ c p d rest t small sim valid. record {
  corr = c;
  to = [];
  objects = p;
  context = d;
  reads = rw append-nil;
  valid = valid;
  post = Post-refl heap p.array_values c s d sim;
  keeps = λ j zs e. e;
  same = tt;
}
calls-Restored heap f g i (x ∷ xs) s all_fit fits fuel room =
    head-RestoredCalls heap f g i x xs s
      (λ s₁ progress.
        calls-Restored heap f g (i + 1) xs (set_next_value_as_return_value i s₁) all_fit fits.1
          (omega arith) (omega arith))
      (serialize_function_call f heap x s)
      (function_call-Restored heap f g x s all_fit fits.0 (omega arith))
      (serialize_function_call-Shrinks heap f x s fuel)
