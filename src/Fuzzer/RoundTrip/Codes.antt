-- ===== src/Fuzzer/RoundTrip/Codes.antt =====
-- The bytes of one value, read one field at a time.
use caf.Prelude.{ℕ, suc, ◌^◌, ◌<◌, ◌≡◌, refl, Bool, true, false, [], ◌∷◌, ◌++◌, length, arith}
use caf.Infrastructure.Result.{ok}
use caf.Infrastructure.Stream.{Bytes, write_int, read_int-write_int}
use caf.Fuzzer.Value.{ValueKind, kind_code}
use caf.Fuzzer.ObjectPool.{ObjectPool}
use caf.Fuzzer.Serializer.{bool_code}
use caf.Fuzzer.Deserializer.{
  DeserializationContext, Reader, take_int, read_chars, read_value, deserialize_value, to_bool,
}

abbrev pub reader : Bytes → ObjectPool → DeserializationContext → Reader
reader input p d = record { input = input; objects = p; context = d }

pub take_int-write_int :
    (n v : ℕ) (rest : Bytes) (p : ObjectPool) (d : DeserializationContext)
    → v < 256 ^ n
    → take_int n (reader (write_int n v ++ rest) p d) ≡ ok (v, reader rest p d)
take_int-write_int n v rest p d h = rw (read_int-write_int n v rest h)

pub deserialize_value-tag :
    (k : ValueKind) (g : ℕ) (rest : Bytes) (p : ObjectPool) (d : DeserializationContext)
    → deserialize_value (suc g) (reader (write_int 1 (kind_code k) ++ rest) p d)
      ≡ read_value (deserialize_value g) k (reader rest p d)
unfolding deserialize_value
deserialize_value-tag ValueKind.undefined g rest p d =
    rw (take_int-write_int 1 0 rest p d (omega arith))
deserialize_value-tag ValueKind.null g rest p d = rw (take_int-write_int 1 1 rest p d (omega arith))
deserialize_value-tag ValueKind.boolean g rest p d =
    rw (take_int-write_int 1 2 rest p d (omega arith))
deserialize_value-tag ValueKind.string g rest p d =
    rw (take_int-write_int 1 3 rest p d (omega arith))
deserialize_value-tag ValueKind.function g rest p d =
    rw (take_int-write_int 1 4 rest p d (omega arith))
deserialize_value-tag ValueKind.integer g rest p d =
    rw (take_int-write_int 1 5 rest p d (omega arith))
deserialize_value-tag ValueKind.float g rest p d =
    rw (take_int-write_int 1 6 rest p d (omega arith))
deserialize_value-tag ValueKind.array g rest p d =
    rw (take_int-write_int 1 7 rest p d (omega arith))
deserialize_value-tag ValueKind.placeholder g rest p d =
    rw (take_int-write_int 1 8 rest p d (omega arith))

pub read_chars-append : (s rest : Bytes) → read_chars (length s) (s ++ rest) ≡ ok (s, rest)
unfolding read_chars
read_chars-append [] rest = refl
read_chars-append (b ∷ s) rest = rw (read_chars-append s rest)

pub to_bool-bool_code : (b : Bool) → to_bool (bool_code b) ≡ b
to_bool-bool_code true = refl
to_bool-bool_code false = refl

pub bool_code-lt : (b : Bool) → bool_code b < 256 ^ 1
bool_code-lt true = omega arith
bool_code-lt false = omega arith
