-- ===== src/Fuzzer/ObjectPool/Caching.antt =====
-- What asking src/Fuzzer/ObjectPool.cpp for a value twice comes to.
use caf.Prelude.{
  ℕ, ◌^◌, ◌≤◌, ◌<◌, ◌≡◌, Option, none, some, List, [], ◌∷◌, ◌++◌, length, set, get_elem?-set_self,
  inl, inr, Option-cases, ltb, if◌then◌else◌, arith,
}
use caf.Fuzzer.Value.{Value}
use caf.Fuzzer.ObjectPool.{
  ObjectPool, FloatClass, fpclassify, infinity, neg_infinity, integer_index, integer_table_size,
  held, lookup_string, get_or_create_float_value, get_or_create_string_value,
  get_or_create_integer_value, get_or_create, max_string_len_in_table,
}
use caf.Fuzzer.ObjectPool.Contents.{integer_index-lt, string_eq_refl}

lookup_string-cons :
    (s : List ℕ) (v : Value) (m : List (List ℕ × Value)) → lookup_string s ((s, v) ∷ m) ≡ some v
lookup_string-cons s v m = rw (string_eq_refl s)

-- A short string is made once: asking for it again gives the same value and changes nothing.
pub get_or_create_string_value_idem :
    (s : List ℕ) (p : ObjectPool)
    → length s ≤ max_string_len_in_table
    → let (v, q) = get_or_create_string_value s p in get_or_create_string_value s q ≡ (v, q)
unfolding get_or_create_string_value
get_or_create_string_value_idem s p h = elim (Option-cases (lookup_string s p.str_to_value)) [
  | inl e ↦ ground (arith, e, lookup_string-cons s (Value.string s) p.str_to_value)
  | inr (v, e) ↦ ground (arith, e)
]

integer-hit :
    (n i : ℕ) (p : ObjectPool) (v : Value)
    → integer_index n ≡ some i
    → held p.int_table i ≡ some v
    → get_or_create_integer_value n p ≡ (v, p)
unfolding get_or_create_integer_value
integer-hit n i p v e h = rw (e, get_or_create_integer_value, h)

abbrev with_integer : ℕ → ℕ → ObjectPool → ObjectPool
with_integer n i p = record p {
  values = p.values ++ Value.integer n ∷ [];
  int_table = set p.int_table i (some (Value.integer n));
}

integer-miss :
    (n i : ℕ) (p : ObjectPool)
    → integer_index n ≡ some i
    → held p.int_table i ≡ none
    → get_or_create_integer_value n p ≡ (Value.integer n, with_integer n i p)
unfolding get_or_create_integer_value
integer-miss n i p e h = rw (e, get_or_create_integer_value, h)

held-set_self :
    (xs : List (Option Value)) (i : ℕ) (v : Value)
    → i < length xs
    → held (set xs i (some v)) i ≡ some v
held-set_self xs i v h = rw (get_elem?-set_self xs i (some v) h, held)

-- An integer that has a slot in a table of full size is made once: asking for it again gives the same
-- value and changes nothing.
pub get_or_create_integer_value_idem :
    (n i : ℕ) (p : ObjectPool)
    → integer_index n ≡ some i
    → length p.int_table ≡ integer_table_size
    → let (v, q) = get_or_create_integer_value n p in get_or_create_integer_value n q ≡ (v, q)
get_or_create_integer_value_idem n i p e size = elim (Option-cases (held p.int_table i)) [
  | inl h ↦ rw (integer-miss n i p e h) (
      integer-hit n i (with_integer n i p) (Value.integer n) e (
        held-set_self p.int_table i (Value.integer n)
          (omega (arith, integer_index-lt n i e, size))))
  | inr (v, h) ↦ rw (integer-hit n i p v e h) (integer-hit n i p v e h)
]

abbrev infinite : ℕ → ObjectPool → Value
infinite d p = get_or_create p.inf (Value.float (if ltb d (2 ^ 63) then infinity else neg_infinity))

infinite-get :
    (d : ℕ) (p : ObjectPool)
    → fpclassify d ≡ FloatClass.fp_infinite
    → get_or_create_float_value d p ≡ (infinite d p, record p { inf = some (infinite d p) })
unfolding get_or_create_float_value
infinite-get d p h = rw (h, get_or_create_float_value)

-- Once an infinity has been asked for, the next infinity that is asked for is that one, whatever its
-- sign.
pub infinities_conflated :
    (d e : ℕ) (p : ObjectPool)
    → fpclassify d ≡ FloatClass.fp_infinite
    → fpclassify e ≡ FloatClass.fp_infinite
    → (get_or_create_float_value e (get_or_create_float_value d p).1).0
      ≡ (get_or_create_float_value d p).0
infinities_conflated d e p hd he = rw (infinite-get d p hd, infinite-get e _ he)
