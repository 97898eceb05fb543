-- ===== src/Infrastructure/Stream.antt =====
-- include/Infrastructure/Stream.h and the integer casts of include/Infrastructure/Casting.h, with
-- the readers and writers of integers that src/Fuzzer/TestCaseSerializer.cpp,
-- src/Fuzzer/TestCaseDeserializer.cpp and include/Targets/Common/TestCaseParser.h each define.
-- A byte is a number below 256, an integer of `n` bytes its bit pattern, least significant byte
-- first, as on the machines that the fuzzer runs on.
use native.Mathlib.Nat.{mod-eq_of_lt, pow-suc}
use caf.Prelude.{
  ◌==◌, ==_iff, if◌then◌else◌, true, Bool-cases, inl, inr, ℕ, zero, suc, ◌+◌, ◌*◌, ◌/◌, ◌%◌, ◌^◌,
  ◌<◌, ◌≡◌, refl, List, [], ◌∷◌, ◌++◌, length, arith,
}
use caf.Infrastructure.Result.{
  Result, ok, throw, uninitialised, Ensures, returns, throws, Ensures-ok,
}

abbrev pub Bytes : Type 0
Bytes = List ℕ

-- A conversion to an unsigned or two's complement integer of `n` bytes.
unfoldable pub int_cast : ℕ → ℕ → ℕ
int_cast n v = v % 256 ^ n

unfoldable pub to_bytes : ℕ → ℕ → Bytes
to_bytes zero v = []
to_bytes (suc n) v = (v % 256) ∷ to_bytes n (v / 256)

unfoldable pub from_bytes : Bytes → ℕ
from_bytes [] = 0
from_bytes (b ∷ bs) = b + 256 * from_bytes bs

-- MemoryOutputStream::Write appends; what a call writes is its result.
unfoldable pub write_int : ℕ → ℕ → Bytes
unfolding int_cast to_bytes
write_int n v = to_bytes n (int_cast n v)

-- A double is written by its 64-bit pattern.
unfoldable pub write_float : ℕ → Bytes
unfolding to_bytes
write_float d = to_bytes 8 d

-- MemoryInputStream::Read: what it copies, and what is left. It copies less than it was asked for
-- where the buffer ends before.
unfoldable pub read : ℕ → Bytes → Bytes × Bytes
read zero input = ([], input)
read (suc n) [] = ([], [])
read (suc n) (b ∷ input) = let (bs, rest) = read n input in (b ∷ bs, rest)

-- ReadByte, and ReadInt below, read into a local variable that nothing wrote before; what they make
-- of it where Read did not fill it is not defined.
unfoldable pub read_byte : Bytes → Result (ℕ × Bytes)
unfolding read
read_byte input = filled_byte (read 1 input)
  where
    filled_byte : Bytes × Bytes → Result (ℕ × Bytes)
    filled_byte ([], rest) = throw uninitialised
    filled_byte (b ∷ bs, rest) = ok (b, rest)

unfoldable pub read_int : ℕ → Bytes → Result (ℕ × Bytes)
unfolding read from_bytes
read_int n input =
    let (bs, rest) = read n input in
    if length bs == n then ok (from_bytes bs, rest) else throw uninitialised

unfoldable pub read_float : Bytes → Result (ℕ × Bytes)
unfolding read_int
read_float input = read_int 8 input

pub length-to_bytes : (n v : ℕ) → length (to_bytes n v) ≡ n
unfolding to_bytes
length-to_bytes zero v = refl
length-to_bytes (suc n) v = omega (arith, length-to_bytes n (v / 256))

pub length-write_int : (n v : ℕ) → length (write_int n v) ≡ n
unfolding write_int
length-write_int n v = length-to_bytes n (v % 256 ^ n)

from_bytes-to_bytes : (n v : ℕ) → v < 256 ^ n → from_bytes (to_bytes n v) ≡ v
unfolding from_bytes to_bytes
from_bytes-to_bytes zero v h = omega arith
from_bytes-to_bytes (suc n) v h =
    let h' : v < 256 ^ n * 256 = rw (pow-suc 256 n) at h in
    omega (arith, from_bytes-to_bytes n (v / 256) (omega arith))

-- What was written is read back, and what follows it is left.
pub read-append : (bs rest : Bytes) → read (length bs) (bs ++ rest) ≡ (bs, rest)
unfolding read
read-append [] rest = refl
read-append (b ∷ bs) rest = rw (read-append bs rest) refl

read_int-to_bytes :
    (n v : ℕ) (rest : Bytes) → v < 256 ^ n → read_int n (to_bytes n v ++ rest) ≡ ok (v, rest)
unfolding read_int
read_int-to_bytes n v rest h =
    let whole : read n (to_bytes n v ++ rest) ≡ (to_bytes n v, rest) =
      rw (length-to_bytes n v) at (read-append (to_bytes n v) rest) in
    let filled : (length (to_bytes n v) == n) ≡ true = (==_iff _ n).1 (length-to_bytes n v) in
    rw (whole, filled, from_bytes-to_bytes n v h) refl

-- An integer that fits in `n` bytes is read back as it was written, and what follows is left.
pub read_int-write_int :
    (n v : ℕ) (rest : Bytes) → v < 256 ^ n → read_int n (write_int n v ++ rest) ≡ ok (v, rest)
unfolding write_int
read_int-write_int n v rest h = rw (mod-eq_of_lt h) (read_int-to_bytes n v rest h)

pub read_float-write_float :
    (d : ℕ) (rest : Bytes) → d < 2 ^ 64 → read_float (write_float d ++ rest) ≡ ok (d, rest)
unfolding read_float write_float
read_float-write_float d rest h = read_int-to_bytes 8 d rest h

-- What is copied and what is left are the input.
pub read-whole :
    (n : ℕ) (input : Bytes) → length input ≡ length (read n input).0 + length (read n input).1
unfolding read
read-whole zero input = omega arith
read-whole (suc n) [] = omega arith
read-whole (suc n) (b ∷ input) = omega (arith, read-whole n input)

pub read_int-Ensures :
    (n : ℕ) (input : Bytes)
    → Ensures (λ (v, rest). length input ≡ n + length rest) (read_int n input)
unfolding read_int
read_int-Ensures n input = elim (Bool-cases (length (read n input).0 == n)) [
  | inl e ↦
      let filled : length (read n input).0 ≡ n = (==_iff _ n).0 e in
      rw (e, read_int) (returns _ (omega (arith, filled, read-whole n input)))
  | inr e ↦ rw (e, read_int) (throws uninitialised)
]

pub read_int-shorter :
    (n : ℕ) (input rest : Bytes) (v : ℕ)
    → read_int n input ≡ ok (v, rest)
    → length input ≡ n + length rest
read_int-shorter n input rest v e = Ensures-ok _ e (read_int-Ensures n input)
