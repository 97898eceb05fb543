-- ===== src/Fuzzer/RoundTrip/Leaves.antt =====
-- The values that are not arrays, and the references to arrays that were written before.
use caf.Prelude.{
  ℕ, Bool, suc, ◌^◌, ◌≤◌, ◌<◌, ◌≡◌, refl, some, List, ◌++◌, length, lookup, arith, append_assoc,
  get_elem?_bound,
}
use caf.Infrastructure.Result.{Result, ok}
use caf.Infrastructure.Stream.{Bytes, write_int, write_float, read_float-write_float}
use caf.Fuzzer.Value.{Value, ValueKind, Arrays}
use caf.Fuzzer.ObjectPool.{
  FloatClass, fpclassify, ObjectPool, get_undefined_value, get_null_value, get_boolean_value,
  get_function_value, get_or_create_string_value, get_or_create_integer_value,
  get_or_create_float_value,
}
use caf.Fuzzer.ObjectPool.Contents.{IsValid, Returns}
use caf.Fuzzer.ObjectPool.Singles.{
  get_undefined_value-Returns, get_null_value-Returns, get_boolean_value-Returns,
  get_function_value-Returns, get_or_create_float_value-Returns,
}
use caf.Fuzzer.ObjectPool.Tables.{
  get_or_create_string_value-Returns, get_or_create_integer_value-Returns, placed, placed-Returns,
  get_placeholder_value-placed,
}
use caf.Fuzzer.Serializer.{SerializationContext, tag, bool_code}
use caf.Fuzzer.Deserializer.{
  DeserializationContext, Reader, with_pool, read_placeholder, read_value, deserialize_value,
}
use caf.Fuzzer.RoundTrip.{Corr, SameValue, Sim, Post, Keeps}
use caf.Fuzzer.RoundTrip.Codes.{
  reader, take_int-write_int, deserialize_value-tag, read_chars-append, to_bool-bool_code,
  bool_code-lt,
}
use caf.Fuzzer.RoundTrip.State.{Post-refl}

pub record ReadBack (heap : Arrays) (c : Corr) (s' : SerializationContext) (p : ObjectPool)
    (v : Value) (rest : Bytes) (result : Result (Value × Reader)) : Type 0 where
  pub corr : Corr
  pub value : Value
  pub objects : ObjectPool
  pub context : DeserializationContext
  pub reads : result ≡ ok (value, reader rest objects context)
  pub valid : IsValid objects
  pub post : Post heap c corr s' (length p.array_values) context objects.array_values
  pub keeps : Keeps p.array_values objects.array_values
  pub same : SameValue corr v value

-- What was written is read back, whatever follows it, by a reader that is in step with the writer.
abbrev pub Restored :
    Arrays → ℕ → Value → SerializationContext → Result (Bytes × SerializationContext) → Type 0
Restored heap g v s (ok (bs, s')) =
    (c : Corr) (p : ObjectPool) (d : DeserializationContext) (rest : Bytes)
    → length (bs ++ rest) < g
    → Sim c s d (length p.array_values)
    → IsValid p
    → ReadBack heap c s' p v rest (deserialize_value g (reader (bs ++ rest) p d))
Restored heap g v s _ = Unit {0}

-- A value that the pool makes of its content, and that changes no context.
leaf-ReadBack :
    (heap : Arrays) (c : Corr) (s : SerializationContext) (p : ObjectPool) (v : Value)
    (rest : Bytes) (d : DeserializationContext) (get : ObjectPool → Value × ObjectPool)
    → Sim c s d (length p.array_values)
    → Returns v p (get p)
    → SameValue c v (get p).0
    → ReadBack heap c s p v rest (with_pool get (reader rest p d))
leaf-ReadBack heap c s p v rest d get sim ret same = record {
  corr = c;
  value = (get p).0;
  objects = (get p).1;
  context = d;
  reads = refl;
  valid = ret.valid;
  post = rw ret.arrays (Post-refl heap p.array_values c s d sim);
  keeps = λ j ys h. rw ret.arrays h;
  same = same;
}

module _ (heap : Arrays) (c : Corr) (s : SerializationContext) (p : ObjectPool)
    (d : DeserializationContext) (rest : Bytes) (sim : Sim c s d (length p.array_values))
    (valid : IsValid p) where
  pub undefined-ReadBack :
      (g : ℕ)
      → ReadBack heap c s p Value.undefined rest
          (deserialize_value (suc g) (reader (tag Value.undefined ++ rest) p d))
  unfolding read_value
  undefined-ReadBack g =
      let ret = get_undefined_value-Returns p valid in
      rw (deserialize_value-tag ValueKind.undefined g rest p d)
        (leaf-ReadBack heap c s p Value.undefined rest d get_undefined_value sim ret ret.value)

  pub null-ReadBack :
      (g : ℕ)
      → ReadBack heap c s p Value.null rest
          (deserialize_value (suc g) (reader (tag Value.null ++ rest) p d))
  unfolding read_value
  null-ReadBack g =
      let ret = get_null_value-Returns p valid in
      rw (deserialize_value-tag ValueKind.null g rest p d)
        (leaf-ReadBack heap c s p Value.null rest d get_null_value sim ret ret.value)

  pub boolean-ReadBack :
      (b : Bool) (g : ℕ)
      → ReadBack heap c s p (Value.boolean b) rest (
          deserialize_value
            (suc g)
            (reader ((tag (Value.boolean b) ++ write_int 1 (bool_code b)) ++ rest) p d))
  unfolding read_value
  boolean-ReadBack b g =
      let ret = get_boolean_value-Returns p valid b in
      rw
        (
          append_assoc,
          deserialize_value-tag ValueKind.boolean g _ p d,
          take_int-write_int 1 (bool_code b) rest p d (bool_code-lt b),
          to_bool-bool_code b,
        )
        (leaf-ReadBack heap c s p (Value.boolean b) rest d (get_boolean_value b) sim ret ret.value)

  pub function-ReadBack :
      (f g : ℕ)
      → f < 2 ^ 32
      → ReadBack heap c s p (Value.function f) rest (
          deserialize_value
            (suc g)
            (reader ((tag (Value.function f) ++ write_int 4 f) ++ rest) p d))
  unfolding read_value
  function-ReadBack f g h =
      let ret = get_function_value-Returns p valid f in
      rw
        (
          append_assoc,
          deserialize_value-tag ValueKind.function g _ p d,
          take_int-write_int 4 f rest p d (omega arith),
        )
        (leaf-ReadBack heap c s p (Value.function f) rest d (get_function_value f) sim ret
          ret.value)

  pub integer-ReadBack :
      (n g : ℕ)
      → n < 2 ^ 32
      → ReadBack heap c s p (Value.integer n) rest (
          deserialize_value (suc g) (reader ((tag (Value.integer n) ++ write_int 4 n) ++ rest) p d))
  unfolding read_value
  integer-ReadBack n g h =
      let ret = get_or_create_integer_value-Returns p valid n h in
      rw
        (
          append_assoc,
          deserialize_value-tag ValueKind.integer g _ p d,
          take_int-write_int 4 n rest p d (omega arith),
        )
        (leaf-ReadBack heap c s p (Value.integer n) rest d (get_or_create_integer_value n) sim ret
          ret.value)

  pub string-ReadBack :
      (t : List ℕ) (g : ℕ)
      → length t < 2 ^ 32
      → ReadBack heap c s p (Value.string t) rest (
          deserialize_value
            (suc g)
            (reader ((tag (Value.string t) ++ (write_int 4 (length t) ++ t)) ++ rest) p d))
  unfolding read_value
  string-ReadBack t g h =
      let ret = get_or_create_string_value-Returns p valid t in
      rw
        (
          append_assoc,
          deserialize_value-tag ValueKind.string g _ p d,
          append_assoc,
          take_int-write_int 4 (length t) (t ++ rest) p d (omega arith),
          read_chars-append t rest,
        )
        (leaf-ReadBack heap c s p (Value.string t) rest d (get_or_create_string_value t) sim ret
          ret.value)

  pub float-ReadBack :
      (n g : ℕ)
      → n < 2 ^ 64
      → fpclassify n ≡ FloatClass.fp_other
      → ReadBack heap c s p
          (Value.float n)
          rest
          (deserialize_value (suc g) (reader ((tag (Value.float n) ++ write_float n) ++ rest) p d))
  unfolding read_value
  float-ReadBack n g h e =
      let ret = get_or_create_float_value-Returns p valid n e in
      rw
        (
          append_assoc,
          deserialize_value-tag ValueKind.float g _ p d,
          read_float-write_float n rest h,
        )
        (leaf-ReadBack heap c s p (Value.float n) rest d (get_or_create_float_value n) sim ret
          ret.value)

  -- A reference to a return value.
  pub return-ReadBack :
      (i k g : ℕ)
      → lookup i s.ret_value_indexes ≡ some k
      → s.index_alloc ≤ 2 ^ 32
      → ReadBack heap c s p (Value.placeholder i) rest (
          deserialize_value
            (suc g)
            (reader ((tag (Value.placeholder k) ++ write_int 4 k) ++ rest) p d))
  unfolding read_value
  return-ReadBack i k g e h =
      let ret = placed-Returns p valid i in
      let back = sim.returns i k e in
      let small : k < 256 ^ 4 = ground (arith, sim.next, sim.unused k) in
      rw
        (
          append_assoc,
          deserialize_value-tag ValueKind.placeholder g _ p d,
          read_placeholder,
          take_int-write_int 4 k rest p d small,
          back,
          get_placeholder_value-placed i p,
        )
        (leaf-ReadBack heap c s p (Value.placeholder i) rest d (placed i) sim ret ret.value)

  -- A reference to an array that was written before.
  pub known-ReadBack :
      (a k g : ℕ)
      → lookup a s.value_indexes ≡ some k
      → s.index_alloc ≤ 2 ^ 32
      → ReadBack heap c s p (Value.array a) rest (
          deserialize_value
            (suc g)
            (reader ((tag (Value.placeholder k) ++ write_int 4 k) ++ rest) p d))
  unfolding read_value
  known-ReadBack a k g e h =
      let (b, found, stored, free) = sim.arrays a k e in
      let bound = get_elem?_bound d.pool k (some (Value.array b)) stored in
      let small : k < 256 ^ 4 = omega (arith, sim.next) in
      rw
        (
          append_assoc,
          deserialize_value-tag ValueKind.placeholder g _ p d,
          read_placeholder,
          take_int-write_int 4 k rest p d small,
          free,
          stored,
        )
        (record {
          corr = c;
          value = Value.array b;
          objects = p;
          context = d;
          reads = refl;
          valid = valid;
          post = Post-refl heap p.array_values c s d sim;
          keeps = λ j ys q. q;
          same = (b, found, refl);
        })
