-- ===== src/Fuzzer/RoundTrip/Args.antt =====
-- The loop over the arguments of a call.
use caf.Prelude.{
  ℕ, suc, ◌<◌, ◌≡◌, refl, ap, ◌∙◌, List, [], ◌∷◌, ◌++◌, length, arith, length-append, append_assoc,
  append-nil, All,
}
use caf.Infrastructure.Result.{Result, ok, throw, out_of_fuel, ◌>>=◌, Ensures-ok}
use caf.Infrastructure.Stream.{Bytes}
use caf.Fuzzer.Value.{Value, Arrays}
use caf.Fuzzer.ObjectPool.{ObjectPool}
use caf.Fuzzer.ObjectPool.Contents.{IsValid}
use caf.Fuzzer.Serializer.{SerializationContext, serialize_all, serialize_value}
use caf.Fuzzer.Serializer.Termination.{Progress, Shrinks, serialize_value-Shrinks}
use caf.Fuzzer.Deserializer.{DeserializationContext, Reader, deserialize_value}
use caf.Fuzzer.RoundTrip.{Corr, SameValues, Fits, Sim, Post, Keeps}
use caf.Fuzzer.RoundTrip.Codes.{reader}
use caf.Fuzzer.RoundTrip.State.{SameValue-Extends, Post-refl, Post-trans}
use caf.Fuzzer.RoundTrip.Leaves.{ReadBack, Restored}
use caf.Fuzzer.RoundTrip.Elements.{Room, RestoresValues}
use caf.Fuzzer.TestCase.{FunctionCall, push_arg}
use caf.Fuzzer.Deserializer.{push_args}

-- What the reader has done after the arguments `xs` of a call.
pub record ArgsBack (heap : Arrays) (c : Corr) (s' : SerializationContext) (p : ObjectPool)
    (call : FunctionCall) (xs : List Value) (rest : Bytes) (result : Result (FunctionCall × Reader))
    : Type 0 where
  pub corr : Corr
  pub to : List Value
  pub objects : ObjectPool
  pub context : DeserializationContext
  pub reads : result ≡ ok (record call { args = call.args ++ to }, reader rest objects context)
  pub valid : IsValid objects
  pub post : Post heap c corr s' (length p.array_values) context objects.array_values
  pub keeps : Keeps p.array_values objects.array_values
  pub same : SameValues corr xs to

abbrev pub RestoredArgs :
    Arrays → ℕ → List Value → SerializationContext → Result (Bytes × SerializationContext) → Type 0
RestoredArgs heap g xs s (ok (bs, s')) =
    (c : Corr) (p : ObjectPool) (d : DeserializationContext) (rest : Bytes) (call : FunctionCall)
    → length (bs ++ rest) < g
    → Sim c s d (length p.array_values)
    → IsValid p
    → ArgsBack heap c s' p call xs rest
        (push_args (deserialize_value g) (length xs) call (reader (bs ++ rest) p d))
RestoredArgs heap g xs s _ = Unit {0}

push_args-suc :
    (next : Reader → Result (Value × Reader)) (n : ℕ) (call : FunctionCall) (r r' : Reader)
    (v : Value)
    → next r ≡ ok (v, r')
    → push_args next (suc n) call r ≡ push_args next n (push_arg v call) r'
unfolding push_args
push_args-suc next n call r r' v e = rw (e, push_args)

module _ (heap : Arrays) (g : ℕ) (x : Value) (xs : List Value) (s s₁ s₂ : SerializationContext)
    (bs bs₂ : Bytes) (c : Corr) (p : ObjectPool) (d : DeserializationContext) (rest : Bytes)
    (call : FunctionCall)
    (first : ReadBack heap c s₁ p x
      (bs₂ ++ rest)
      (deserialize_value g (reader (bs ++ (bs₂ ++ rest)) p d)))
    (more : ArgsBack heap first.corr s₂ first.objects (push_arg first.value call) xs rest (
      push_args
        (deserialize_value g)
        (length xs)
        (push_arg first.value call)
        (reader (bs₂ ++ rest) first.objects first.context))) where
  cons-reads :
      push_args (deserialize_value g) (suc (length xs)) call (reader ((bs ++ bs₂) ++ rest) p d)
      ≡ ok (
        record call { args = call.args ++ first.value ∷ more.to },
        reader rest more.objects more.context,
      )
  unfolding push_arg
  cons-reads = rw append_assoc (
      push_args-suc (deserialize_value g) (length xs) call _ _ first.value first.reads
      ∙ more.reads
      ∙ ap
          (λ (t : List Value). ok (record call { args = t }, reader rest more.objects more.context))
          (append_assoc call.args (first.value ∷ []) more.to))

  cons-ArgsBack :
      ArgsBack heap c s₂ p call
        (x ∷ xs)
        rest
        (push_args (deserialize_value g) (suc (length xs)) call (reader ((bs ++ bs₂) ++ rest) p d))
  cons-ArgsBack = record {
    corr = more.corr;
    to = first.value ∷ more.to;
    objects = more.objects;
    context = more.context;
    reads = cons-reads;
    valid = more.valid;
    post =
        Post-trans heap first.objects.array_values more.objects.array_values c first.corr more.corr
          s₁ s₂ _ _ first.context more.context first.post more.post first.post.grows
          (λ j zs le e. more.keeps j zs e);
    keeps = λ j zs e. more.keeps j zs (first.keeps j zs e);
    same = (
      SameValue-Extends first.corr more.corr more.post.extends x first.value first.same,
      more.same,
    );
  }

tail-RestoredArgs :
    (heap : Arrays) (g : ℕ) (x : Value) (xs : List Value) (s s₁ : SerializationContext) (bs : Bytes)
    → Restored heap g x s (ok (bs, s₁))
    → (r : Result (Bytes × SerializationContext)) → RestoredArgs heap g xs s₁ r
    → RestoredArgs heap g (x ∷ xs) s (r >>= λ (bs', s₂). ok (bs ++ bs', s₂))
tail-RestoredArgs heap g x xs s s₁ bs head (throw e) tail = tt
tail-RestoredArgs heap g x xs s s₁ bs head out_of_fuel tail = tt
tail-RestoredArgs heap g x xs s s₁ bs head (ok (bs₂, s₂)) tail = λ c p d rest call small sim valid.
    let small' : length (bs ++ (bs₂ ++ rest)) < g = rw (append_assoc bs bs₂ rest) at small in
    let first = head c p d (bs₂ ++ rest) small' sim valid in
    cons-ArgsBack heap g x xs s s₁ s₂ bs bs₂ c p d rest call first (
      tail first.corr first.objects first.context rest (push_arg first.value call)
        (omega (arith, length-append bs (bs₂ ++ rest))) first.post.sim first.valid)

head-RestoredArgs :
    (heap : Arrays) (f g : ℕ) (x : Value) (xs : List Value) (s : SerializationContext)
    → ((s₁ : SerializationContext)
        → Progress heap s s₁
        → RestoredArgs heap g xs s₁ (serialize_all (serialize_value f heap) xs s₁))
    → (r : Result (Bytes × SerializationContext)) → Restored heap g x s r
    → Shrinks heap s r
    → RestoredArgs heap g (x ∷ xs) s (
        r >>= λ (bs, s₁).
        serialize_all (serialize_value f heap) xs s₁ >>= λ (bs', s₂). ok (bs ++ bs', s₂))
head-RestoredArgs heap f g x xs s tail (throw e) back progress = tt
head-RestoredArgs heap f g x xs s tail out_of_fuel back progress = tt
head-RestoredArgs heap f g x xs s tail (ok (bs, s₁)) back progress =
    tail-RestoredArgs heap g x xs s s₁ bs back (serialize_all (serialize_value f heap) xs s₁)
      (tail s₁ (Ensures-ok (λ p. Progress heap s p.1) refl progress))

pub args-RestoredArgs :
    (heap : Arrays) (f : ℕ)
    → RestoresValues heap f
    → (g : ℕ) (xs : List Value) (s : SerializationContext) → All Fits xs
    → Room heap f s
    → RestoredArgs heap g xs s (serialize_all (serialize_value f heap) xs s)
unfolding serialize_all push_args
args-RestoredArgs heap f ih g [] s fits room = λ c p d rest call small sim valid. record {
  corr = c;
  to = [];
  objects = p;
  context = d;
  reads = rw append-nil;
  valid = valid;
  post = Post-refl heap p.array_values c s d sim;
  keeps = λ j zs e. e;
  same = tt;
}
args-RestoredArgs heap f ih g (x ∷ xs) s fits room =
    head-RestoredArgs heap f g x xs s
      (λ s₁ progress. args-RestoredArgs heap f ih g xs s₁ fits.1 (omega arith))
      (serialize_value f heap x s) (ih g x s fits.0 room)
      (serialize_value-Shrinks heap f x s room.0)
