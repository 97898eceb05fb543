-- ===== src/Fuzzer/RoundTrip/Whole.antt =====
-- A whole test case.
use caf.Prelude.{
  ℕ, suc, ◌+◌, ◌^◌, ◌<◌, ◌≡◌, refl, ap, ◌∙◌, subst, some, [], ◌++◌, length, lookup, arith,
  length-append, append_assoc, All,
}
use caf.Infrastructure.Result.{Result, ok, throw, out_of_fuel, ◌>>=◌}
use caf.Infrastructure.Stream.{Bytes, write_int}
use caf.Fuzzer.Value.{Arrays}
use caf.Fuzzer.ObjectPool.{ObjectPool}
use caf.Fuzzer.ObjectPool.Contents.{IsValid}
use caf.Fuzzer.Serializer.{SerializationContext}
use caf.Fuzzer.Deserializer.{Reader}
use caf.Fuzzer.RoundTrip.{Corr, SameArray, FitsArrays, Sim, Keeps}
use caf.Fuzzer.RoundTrip.Codes.{reader, take_int-write_int}
use caf.Fuzzer.RoundTrip.{FitsCall}
use caf.Fuzzer.RoundTrip.{SameCalls}
use caf.Fuzzer.TestCase.{TestCase}
use caf.Fuzzer.Deserializer.{deserialize_calls}
use caf.Fuzzer.TestCase.{new_test_case, set_store_root_entry_index}
use caf.Fuzzer.Serializer.{serialize, new_serialization_context}
use caf.Fuzzer.Serializer.Termination.{new_below-le}
use caf.Fuzzer.Deserializer.{deserialize, new_deserialization_context, deserialization_fuel}
use caf.Fuzzer.RoundTrip.Sequence.{CallsBack, RestoredCalls, calls-Restored}

pub record FitsTestCase (heap : Arrays) (t : TestCase) : Type 0 where
  pub root : t.store_root_entry_index < 2 ^ 32
  pub count : length heap + length t.calls < 2 ^ 32
  pub calls : All FitsCall t.calls
  pub arrays : FitsArrays heap

-- The second test case is the first one, its arrays copied one for one: sharing and cycles are the
-- same.
pub record IsCopy (c : Corr) (heap : Arrays) (t : TestCase) (heap' : Arrays) (t' : TestCase)
    : Type 0 where
  pub root : t'.store_root_entry_index ≡ t.store_root_entry_index
  pub calls : SameCalls c t.calls t'.calls
  pub arrays : (a b : ℕ) → lookup a c ≡ some b → SameArray c heap heap' a b
  pub injective : (a a' b : ℕ) → lookup a c ≡ some b → lookup a' c ≡ some b → a ≡ a'

start-Sim : (n : ℕ) → Sim [] new_serialization_context new_deserialization_context n
start-Sim n = record {
  next = refl;
  arrays = λ a k h. absurd (cc);
  unknown = λ a h. refl;
  returns = λ i k h. absurd (cc);
  unused = λ k h. refl;
  below = λ a b h. absurd (cc);
  injective = λ a a' b h k. absurd (cc);
}

-- What `deserialize` comes to on the bytes of a test case.
pub record Whole (heap : Arrays) (t : TestCase) (p : ObjectPool) (rest : Bytes)
    (result : Result (TestCase × Reader)) : Type 0 where
  pub copy : TestCase
  pub end : Reader
  pub corr : Corr
  pub reads : result ≡ ok (copy, end)
  pub left : end.input ≡ rest
  pub same : IsCopy corr heap t end.objects.array_values copy
  pub keeps : Keeps p.array_values end.objects.array_values
  pub valid : IsValid end.objects

-- The two numbers before the calls.
abbrev headed : TestCase → Bytes → Bytes
headed t body = write_int 4 t.store_root_entry_index ++ (write_int 4 (length t.calls) ++ body)

headed-append :
    (t : TestCase) (body rest : Bytes)
    → headed t body ++ rest
      ≡ write_int 4 t.store_root_entry_index ++ (write_int 4 (length t.calls) ++ (body ++ rest))
headed-append t body rest = simp append_assoc

abbrev empty_copy : TestCase → TestCase
empty_copy t = set_store_root_entry_index t.store_root_entry_index new_test_case

module _ (heap : Arrays) (t : TestCase) (fits : FitsTestCase heap t) (p : ObjectPool)
    (valid : IsValid p) (rest : Bytes) where
  headed-reads :
      (body : Bytes)
      → deserialize p (headed t body ++ rest)
        ≡ deserialize_calls
            (deserialization_fuel (headed t body ++ rest))
            0
            (length t.calls)
            (empty_copy t)
            (reader (body ++ rest) p new_deserialization_context)
  unfolding deserialize
  headed-reads body =
      let whole = headed-append t body rest in
      ap (λ input. deserialize p input) whole
      ∙ rw (
        take_int-write_int 4 t.store_root_entry_index _ p new_deserialization_context
            (omega (arith, fits.root)),
        take_int-write_int 4 (length t.calls) (body ++ rest) p new_deserialization_context
            (omega (arith, fits.count)),
        whole,
      )

  copy-Whole :
      (body : Bytes) (s : SerializationContext)
      → CallsBack heap [] s p (empty_copy t) t.calls rest (deserialize p (headed t body ++ rest))
      → Whole heap t p rest (deserialize p (headed t body ++ rest))
  unfolding new_test_case set_store_root_entry_index
  copy-Whole body s back = record {
    copy = record { store_root_entry_index = t.store_root_entry_index; calls = back.to };
    end = reader rest back.objects back.context;
    corr = back.corr;
    reads = back.reads;
    left = refl;
    same = record {
      root = refl;
      calls = back.same;
      arrays = λ a b h. (back.post.copied a b h refl).1;
      injective = back.post.sim.injective;
    };
    keeps = back.keeps;
    valid = back.valid;
  }

  abbrev WholeResult : Result Bytes → Type 0
  WholeResult (ok bs) = Whole heap t p rest (deserialize p (bs ++ rest))
  WholeResult _ = Unit {0}

  whole-Result :
      (r : Result (Bytes × SerializationContext))
      → ((g : ℕ) → RestoredCalls heap g 0 t.calls new_serialization_context r)
      → WholeResult (r >>= λ (body, s). ok (headed t body))
  whole-Result (throw e) back = tt
  whole-Result out_of_fuel back = tt
  whole-Result (ok (body, s)) back = copy-Whole body s (
      rw (headed-reads body) (
        back (deserialization_fuel (headed t body ++ rest)) [] p new_deserialization_context rest
          (empty_copy t)
          (omega (
            arith,
            length-append (headed t body) rest,
            length-append (write_int 4 t.store_root_entry_index)
                (write_int 4 (length t.calls) ++ body),
            length-append (write_int 4 (length t.calls)) body,
            length-append body rest,
          ))
          (start-Sim (length p.array_values)) valid))

  serialize-WholeResult : WholeResult (serialize heap t)
  unfolding serialize
  serialize-WholeResult = whole-Result _ λ g.
      calls-Restored heap (suc (length heap)) g 0 t.calls new_serialization_context fits.arrays
        fits.calls (omega (arith, new_below-le (length heap) []))
        (omega (arith, fits.count, new_below-le (length heap) []))

-- Whatever is serialised deserialises, with any bytes after it and into any pool in use: the result
-- is a copy of the test case, in which a call that had no receiver has the receiver undefined, its
-- arrays copied one for one with their sharing and their cycles, the pool's caches stay valid, its own
-- arrays stay as they were, and just the bytes after the test case are left to be read. The sizes, indexes and numbers must fit the format, and floats must be finite.
pub deserialize-serialize :
    (heap : Arrays) (t : TestCase) (p : ObjectPool) (rest bs : Bytes)
    → FitsTestCase heap t
    → IsValid p
    → serialize heap t ≡ ok bs
    → Whole heap t p rest (deserialize p (bs ++ rest))
deserialize-serialize heap t p rest bs fits valid e =
    subst (WholeResult heap t fits p valid rest) e (serialize-WholeResult heap t fits p valid rest)
