-- ===== src/Fuzzer/RoundTrip/Values.antt =====
-- All values, by induction on the writer's fuel.
use caf.Prelude.{
  ℕ, zero, suc, ◌^◌, ◌≤◌, ◌<◌, ◌≡◌, refl, none, some, List, [], ◌∷◌, ◌++◌, length, lookup, insert,
  arith, ◌==◌, ==_iff, inl, inr, Bool-cases, Option-cases, length-append, append_assoc,
  get_elem?-append_left, get_elem?-append_length, get_elem?_bound, All-get_elem?,
}
use caf.Infrastructure.Result.{Result, ok, throw, out_of_fuel, ◌>>=◌}
use caf.Infrastructure.Stream.{Bytes, write_int, length-write_int}
use caf.Fuzzer.Value.{Value, ValueKind, Arrays, elements}
use caf.Fuzzer.ObjectPool.{ObjectPool, create_array_value}
use caf.Fuzzer.ObjectPool.Contents.{with_arrays-IsValid}
use caf.Fuzzer.Serializer.{
  SerializationContext, set_next_value, substitute, write_value, serialize_value, tag,
}
use caf.Fuzzer.Serializer.Termination.{new_below-insert_lt}
use caf.Fuzzer.Deserializer.{
  DeserializationContext, Reader, push_elements, read_value, deserialize_value,
}
use caf.Fuzzer.RoundTrip.{Corr, Extends, SameArray, FitsArrays, Sim, Keeps}
use caf.Fuzzer.RoundTrip.Codes.{reader, take_int-write_int, deserialize_value-tag}
use caf.Fuzzer.RoundTrip.State.{with_array, Extends-trans, Sim-set_next_value, Extends-insert}
use caf.Fuzzer.RoundTrip.Leaves.{
  ReadBack, Restored, undefined-ReadBack, null-ReadBack, boolean-ReadBack, function-ReadBack,
  integer-ReadBack, string-ReadBack, float-ReadBack, return-ReadBack, known-ReadBack,
}
use caf.Fuzzer.RoundTrip.Elements.{
  LoopBack, RestoredAll, Room, RestoresValues, elements-RestoredAll,
}

-- The pool with one more array.
abbrev grown : ObjectPool → ObjectPool
grown p = record p { array_values = p.array_values ++ [] ∷ [] }

module _ (heap : Arrays) (a : ℕ) (s s' : SerializationContext)
    (fresh : lookup a s.value_indexes ≡ none) (xs : List Value) (found : elements heap a ≡ some xs)
    (c : Corr) (p : ObjectPool) (d : DeserializationContext) (rest : Bytes)
    (sim : Sim c s d (length p.array_values)) where
  -- What the loop over the elements leaves.
  abbrev Loop : Result Reader → Type 0
  Loop =
      LoopBack heap (insert a (length p.array_values) c) s' (grown p) (length p.array_values) [] xs
        rest

  module _ (result : Result Reader) (loop : Loop result) where
    entry : lookup a loop.corr ≡ some (length p.array_values)
    entry = loop.post.extends a (length p.array_values) (ground arith)

    extends : Extends c loop.corr
    extends =
        Extends-trans c (insert a (length p.array_values) c) loop.corr
          (Extends-insert c s d (length p.array_values) sim a fresh) loop.post.extends

    copied :
        (a' b : ℕ)
        → lookup a' loop.corr ≡ some b
        → lookup a' c ≡ none
        → (length p.array_values ≤ b) × SameArray loop.corr heap loop.objects.array_values a' b
    copied a' b h k = elim (Bool-cases (a == a')) [
      | inl e ↦
          let same : a ≡ a' = (==_iff a a').0 e in
          let last : length p.array_values ≡ b = ground (arith, entry) in
          (
            omega arith,
            record {
              from = xs;
              to = loop.to;
              found_from = rw (← same) found;
              found_to = rw (← last) loop.stored;
              same = loop.same;
            },
          )
      | inr e ↦
          let (le, same) = loop.post.copied a' b h (rw e k) in
          (omega (arith, length-append p.array_values ([] ∷ [])), same)
    ]

    keeps : Keeps p.array_values loop.objects.array_values
    keeps j ys h =
        let bound = get_elem?_bound p.array_values j ys h in
        loop.keeps j ys (omega arith) (get_elem?-append_left p.array_values ([] ∷ []) j ys h)

    array-ReadBack :
        (whole : Result (Value × Reader))
        → whole ≡ ok (Value.array (length p.array_values), reader rest loop.objects loop.context)
        → ReadBack heap c s' p (Value.array a) rest whole
    array-ReadBack whole reads = record {
      corr = loop.corr;
      value = Value.array (length p.array_values);
      objects = loop.objects;
      context = loop.context;
      reads = reads;
      valid = loop.valid;
      post = record {
        sim = loop.post.sim;
        extends = extends;
        grows = omega (arith, loop.post.grows, length-append p.array_values ([] ∷ []));
        copied = copied;
      };
      keeps = keeps;
      same = (length p.array_values, entry, refl);
    }

  -- The tag, the new array and the size come before the elements.
  array-reads :
      (g : ℕ) (bs : Bytes) (end : Reader)
      → length xs < 2 ^ 32
      → push_elements
          (deserialize_value g)
          (length p.array_values)
          (length xs)
          (reader (bs ++ rest) (grown p) (with_array c s d (length p.array_values) sim a fresh))
        ≡ ok end
      → deserialize_value
          (suc g)
          (reader ((tag (Value.array a) ++ (write_int 4 (length xs) ++ bs)) ++ rest) p d)
        ≡ ok (Value.array (length p.array_values), end)
  unfolding read_value create_array_value
  array-reads g bs end h e = rw (
    append_assoc,
    deserialize_value-tag ValueKind.array g _ p d,
    append_assoc,
    take_int-write_int 4 (length xs) (bs ++ rest) (grown p)
        (with_array c s d (length p.array_values) sim a fresh) (omega arith),
    e,
  )

array-Restored :
    (heap : Arrays) (a : ℕ) (s : SerializationContext) (g : ℕ) (xs : List Value)
    → lookup a s.value_indexes ≡ none
    → elements heap a ≡ some xs
    → length xs < 2 ^ 32
    → (r : Result (Bytes × SerializationContext)) → RestoredAll heap g xs (set_next_value a s) r
    → Restored heap
        (suc g)
        (Value.array a)
        s
        (r >>= λ (bs, s'). ok (tag (Value.array a) ++ (write_int 4 (length xs) ++ bs), s'))
array-Restored heap a s g xs fresh found h (throw e) back = tt
array-Restored heap a s g xs fresh found h out_of_fuel back = tt
array-Restored heap a s g xs fresh found h (ok (bs, s')) back = λ c p d rest small sim valid.
    let n = length p.array_values in
    let one_more : length (grown p).array_values ≡ suc n =
      omega (arith, length-append p.array_values ([] ∷ [])) in
    let loop =
      back (insert a n c) (grown p) (with_array c s d n sim a fresh) rest n []
        (omega (
          arith,
          length-append (tag (Value.array a) ++ (write_int 4 (length xs) ++ bs)) rest,
          length-append (tag (Value.array a)) (write_int 4 (length xs) ++ bs),
          length-append (write_int 4 (length xs)) bs,
          length-write_int 1 7,
          length-append bs rest,
        ))
        (rw one_more (Sim-set_next_value c s d n sim a fresh))
        (with_arrays-IsValid p valid (p.array_values ++ [] ∷ []))
        (get_elem?-append_length p.array_values [] []) in
    array-ReadBack heap a s s' fresh xs found c p d rest sim _ loop _ (
      array-reads heap a s s' fresh xs found c p d rest sim g bs
        (reader rest loop.objects loop.context) h loop.reads)

-- An array that is written for the first time.
new_array-Restored :
    (heap : Arrays) (f : ℕ)
    → RestoresValues heap f
    → FitsArrays heap
    → (g a : ℕ) (s : SerializationContext) → lookup a s.value_indexes ≡ none
    → Room heap (suc f) s
    → Restored heap
        (suc g)
        (Value.array a)
        s
        (write_value (serialize_value f heap) heap (Value.array a) s)
unfolding write_value
new_array-Restored heap f ih fits g a s fresh room = elim (Option-cases (elements heap a)) [
  | inl e ↦ rw (e, write_value) tt
  | inr (xs, e) ↦
      let bound = get_elem?_bound heap a xs e in
      let fewer = new_below-insert_lt (length heap) a s.index_alloc s.value_indexes bound fresh in
      let ok_xs = All-get_elem? _ heap a xs fits e in
      rw (e, write_value)
        (array-Restored heap a s g xs fresh e ok_xs.0 _
          (elements-RestoredAll heap f ih g xs (set_next_value a s) ok_xs.1 (omega arith)))
]

Restored-zero :
    (heap : Arrays) (v : Value) (s : SerializationContext)
    (r : Result (Bytes × SerializationContext))
    → Restored heap 0 v s r
Restored-zero heap v s (ok (bs, s')) = λ c p d rest small. absurd (omega arith)
Restored-zero heap v s (throw e) = tt
Restored-zero heap v s out_of_fuel = tt

pub value-Restored : (heap : Arrays) → FitsArrays heap → (f : ℕ) → RestoresValues heap f
unfolding serialize_value substitute write_value
value-Restored heap fits zero g v s h room = absurd (omega arith)
value-Restored heap fits (suc f) zero v s h room = Restored-zero heap v s _
value-Restored heap fits (suc f) (suc g) Value.undefined s h room =
    λ c p d rest small sim valid. undefined-ReadBack heap c s p d rest sim valid g
value-Restored heap fits (suc f) (suc g) Value.null s h room =
    λ c p d rest small sim valid. null-ReadBack heap c s p d rest sim valid g
value-Restored heap fits (suc f) (suc g) (Value.boolean b) s h room =
    λ c p d rest small sim valid. boolean-ReadBack heap c s p d rest sim valid b g
value-Restored heap fits (suc f) (suc g) (Value.string t) s h room =
    λ c p d rest small sim valid. string-ReadBack heap c s p d rest sim valid t g h
value-Restored heap fits (suc f) (suc g) (Value.function i) s h room =
    λ c p d rest small sim valid. function-ReadBack heap c s p d rest sim valid i g h
value-Restored heap fits (suc f) (suc g) (Value.integer n) s h room =
    λ c p d rest small sim valid. integer-ReadBack heap c s p d rest sim valid n g h
value-Restored heap fits (suc f) (suc g) (Value.float n) s h room =
    λ c p d rest small sim valid. float-ReadBack heap c s p d rest sim valid n g h.0 h.1
value-Restored heap fits (suc f) (suc g) (Value.array a) s h room =
    elim (Option-cases (lookup a s.value_indexes)) [
      | inl e ↦
          rw (e, substitute)
            (new_array-Restored heap f (value-Restored heap fits f) fits g a s e room)
      | inr (k, e) ↦
          rw (e, substitute)
            (λ c p d rest small sim valid.
              known-ReadBack heap c s p d rest sim valid a k g e (omega arith))
    ]
value-Restored heap fits (suc f) (suc g) (Value.placeholder i) s h room =
    elim (Option-cases (lookup i s.ret_value_indexes)) [
      | inl e ↦ rw (e, substitute) tt
      | inr (k, e) ↦
          rw (e, substitute)
            (λ c p d rest small sim valid.
              return-ReadBack heap c s p d rest sim valid i k g e (omega arith))
    ]
