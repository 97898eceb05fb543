-- ===== src/Fuzzer/RoundTrip/Calls.antt =====
-- One call.
use caf.Prelude.{ℕ, ◌<◌, ◌≡◌, refl, some, ◌++◌, length, arith, length-append, append_assoc}
use caf.Infrastructure.Result.{Result, ok, throw, out_of_fuel, ◌>>=◌, Ensures-ok}
use caf.Infrastructure.Stream.{Bytes, write_int}
use caf.Fuzzer.Value.{Value, Arrays}
use caf.Fuzzer.ObjectPool.{ObjectPool}
use caf.Fuzzer.ObjectPool.Contents.{IsValid}
use caf.Fuzzer.Serializer.{SerializationContext, serialize_all, serialize_value, bool_code}
use caf.Fuzzer.Serializer.Termination.{Progress, Shrinks, serialize_value-Shrinks}
use caf.Fuzzer.Deserializer.{DeserializationContext, Reader, deserialize_value}
use caf.Fuzzer.RoundTrip.{Corr, FitsArrays, Sim, Post, Keeps}
use caf.Fuzzer.RoundTrip.Codes.{reader, take_int-write_int, to_bool-bool_code, bool_code-lt}
use caf.Fuzzer.RoundTrip.State.{SameValue-Extends, Post-trans}
use caf.Fuzzer.RoundTrip.Leaves.{ReadBack, Restored}
use caf.Fuzzer.RoundTrip.Elements.{Room}
use caf.Fuzzer.RoundTrip.{SameCall, FitsCall}
use caf.Fuzzer.RoundTrip.Values.{value-Restored}
use caf.Fuzzer.TestCase.{FunctionCall, set_constructor_call, set_this, new_function_call}
use caf.Fuzzer.Serializer.{serialize_function_call, this_or_undefined}
use caf.Fuzzer.Deserializer.{push_args, deserialize_function_call}
use caf.Fuzzer.RoundTrip.Args.{ArgsBack, RestoredArgs, args-RestoredArgs}

-- What the reader has done after a call.
pub record CallBack (heap : Arrays) (c : Corr) (s' : SerializationContext) (p : ObjectPool)
    (call : FunctionCall) (rest : Bytes) (result : Result (FunctionCall × Reader)) : Type 0 where
  pub corr : Corr
  pub to : FunctionCall
  pub objects : ObjectPool
  pub context : DeserializationContext
  pub reads : result ≡ ok (to, reader rest objects context)
  pub valid : IsValid objects
  pub post : Post heap c corr s' (length p.array_values) context objects.array_values
  pub keeps : Keeps p.array_values objects.array_values
  pub same : SameCall corr call to

abbrev pub RestoredCall :
    Arrays
    → ℕ
    → FunctionCall
    → SerializationContext
    → Result (Bytes × SerializationContext)
    → Type 0
RestoredCall heap g call s (ok (bs, s')) =
    (c : Corr) (p : ObjectPool) (d : DeserializationContext) (rest : Bytes)
    → length (bs ++ rest) < g
    → Sim c s d (length p.array_values)
    → IsValid p
    → CallBack heap c s' p call rest (deserialize_function_call g (reader (bs ++ rest) p d))
RestoredCall heap g call s _ = Unit {0}

-- The bytes of a call around those of its receiver and of its arguments.
abbrev framed : FunctionCall → Bytes → Bytes → Bytes
framed call this args =
    write_int 4 call.func_id
    ++ (this ++ (write_int 1 (bool_code call.ctor) ++ (write_int 4 (length call.args) ++ args)))

-- The call that the reader has made before it reads the arguments.
abbrev begun : FunctionCall → Value → FunctionCall
begun call w = set_constructor_call call.ctor (set_this w (new_function_call call.func_id))

abbrev after_this : FunctionCall → Bytes → Bytes → Bytes
after_this call args rest =
    write_int 1 (bool_code call.ctor) ++ (write_int 4 (length call.args) ++ (args ++ rest))

framed-append :
    (call : FunctionCall) (this args rest : Bytes)
    → framed call this args ++ rest
      ≡ write_int 4 call.func_id ++ (this ++ after_this call args rest)
framed-append call this args rest = simp append_assoc

module _ (heap : Arrays) (g : ℕ) (call : FunctionCall) (fits : FitsCall call)
    (s s₁ s₂ : SerializationContext) (this args : Bytes) (c : Corr) (p : ObjectPool)
    (d : DeserializationContext) (rest : Bytes)
    (first : ReadBack heap c s₁ p
      (this_or_undefined call)
      (after_this call args rest)
      (deserialize_value g (reader (this ++ after_this call args rest) p d)))
    (more : ArgsBack heap first.corr s₂ first.objects (begun call first.value) call.args rest (
      push_args
        (deserialize_value g)
        (length call.args)
        (begun call first.value)
        (reader (args ++ rest) first.objects first.context))) where
  abbrev read_call : FunctionCall
  read_call = record {
    func_id = call.func_id;
    this = some first.value;
    ctor = call.ctor;
    args = more.to;
  }

  call-reads :
      deserialize_function_call g (reader (framed call this args ++ rest) p d)
      ≡ ok (read_call, reader rest more.objects more.context)
  unfolding deserialize_function_call
  call-reads =
      rw
        (
          framed-append call this args rest,
          take_int-write_int 4 call.func_id _ p d (omega (arith, fits.func_id)),
          first.reads,
          take_int-write_int 1 (bool_code call.ctor) _ first.objects first.context
              (bool_code-lt call.ctor),
          take_int-write_int 4 (length call.args) (args ++ rest) first.objects first.context
              (omega (arith, fits.args_count)),
          to_bool-bool_code call.ctor,
        )
        more.reads

  call-CallBack :
      CallBack heap c s₂ p call rest
        (deserialize_function_call g (reader (framed call this args ++ rest) p d))
  call-CallBack = record {
    corr = more.corr;
    to = read_call;
    objects = more.objects;
    context = more.context;
    reads = call-reads;
    valid = more.valid;
    post =
        Post-trans heap first.objects.array_values more.objects.array_values c first.corr more.corr
          s₁ s₂ _ _ first.context more.context first.post more.post first.post.grows
          (λ j zs le e. more.keeps j zs e);
    keeps = λ j zs e. more.keeps j zs (first.keeps j zs e);
    same = record {
      func_id = refl;
      this = (
        first.value,
        refl,
        SameValue-Extends first.corr more.corr more.post.extends (this_or_undefined call)
            first.value first.same,
      );
      ctor = refl;
      args = more.same;
    };
  }

framed-Restored :
    (heap : Arrays) (g : ℕ) (call : FunctionCall) (s s₁ : SerializationContext) (this : Bytes)
    → FitsCall call
    → Restored heap g (this_or_undefined call) s (ok (this, s₁))
    → (r : Result (Bytes × SerializationContext)) → RestoredArgs heap g call.args s₁ r
    → RestoredCall heap g call s (r >>= λ (args, s₂). ok (framed call this args, s₂))
framed-Restored heap g call s s₁ this fits head (throw e) tail = tt
framed-Restored heap g call s s₁ this fits head out_of_fuel tail = tt
framed-Restored heap g call s s₁ this fits head (ok (args, s₂)) tail = λ c p d rest small sim valid.
    let whole = framed-append call this args rest in
    let small' : length (write_int 4 call.func_id ++ (this ++ after_this call args rest)) < g =
      rw whole at small in
    let fewer : length (this ++ after_this call args rest) < g =
      omega (arith, length-append (write_int 4 call.func_id) (this ++ after_this call args rest)) in
    let first = head c p d (after_this call args rest) fewer sim valid in
    call-CallBack heap g call fits s s₁ s₂ this args c p d rest first (
      tail first.corr first.objects first.context rest (begun call first.value)
        (omega (
          arith,
          length-append this (after_this call args rest),
          length-append (write_int 1 (bool_code call.ctor))
              (write_int 4 (length call.args) ++ (args ++ rest)),
          length-append (write_int 4 (length call.args)) (args ++ rest),
        ))
        first.post.sim first.valid)

this-Restored :
    (heap : Arrays) (f g : ℕ) (call : FunctionCall) (s : SerializationContext)
    → FitsCall call
    → ((s₁ : SerializationContext)
        → Progress heap s s₁
        → RestoredArgs heap g call.args s₁ (serialize_all (serialize_value f heap) call.args s₁))
    → (r : Result (Bytes × SerializationContext)) → Restored heap g (this_or_undefined call) s r
    → Shrinks heap s r
    → RestoredCall heap g call s (
        r >>= λ (this, s₁). serialize_all (serialize_value f heap) call.args s₁ >>= λ (args, s₂).
        ok (framed call this args, s₂))
this-Restored heap f g call s fits tail (throw e) back progress = tt
this-Restored heap f g call s fits tail out_of_fuel back progress = tt
this-Restored heap f g call s fits tail (ok (this, s₁)) back progress =
    framed-Restored heap g call s s₁ this fits back
      (serialize_all (serialize_value f heap) call.args s₁)
      (tail s₁ (Ensures-ok (λ p. Progress heap s p.1) refl progress))

-- A call that was written is read back.
pub function_call-Restored :
    (heap : Arrays) (f g : ℕ) (call : FunctionCall) (s : SerializationContext)
    → FitsArrays heap
    → FitsCall call
    → Room heap f s
    → RestoredCall heap g call s (serialize_function_call f heap call s)
unfolding serialize_function_call
function_call-Restored heap f g call s all_fit fits room =
    let ih = value-Restored heap all_fit f in
    this-Restored heap f g call s fits
      (λ s₁ progress. args-RestoredArgs heap f ih g call.args s₁ fits.args (omega arith))
      (serialize_value f heap (this_or_undefined call) s)
      (ih g (this_or_undefined call) s fits.this room)
      (serialize_value-Shrinks heap f (this_or_undefined call) s room.0)
