-- ===== src/Fuzzer/ObjectPool/Tables.antt =====
-- The tables of strings, integers and placeholders of src/Fuzzer/ObjectPool.cpp.
use caf.Prelude.{
  get_elem?, [], zero, suc, replicate, length-replicate, length-append, leb→le, ◌-◌, none, ℕ, ◌+◌,
  ◌^◌, ◌<◌, ◌≡◌, refl, Option, some, List, ◌∷◌, length, set, leb, arith, inl, inr, Bool-cases,
  Option-cases, sym, ◌∙◌,
}
use caf.Infrastructure.Result.{ok, or_throw, out_of_range, ◌>>=◌, Succeeds, returns_ok}
use caf.Fuzzer.Value.{Value}
use caf.Fuzzer.ObjectPool.{
  ObjectPool, get_or_create_string_value, get_or_create_integer_value, integer_index, held,
  get_placeholder_value, placeholder_table, get_or_create, lookup_string,
}
use caf.Fuzzer.ObjectPool.Contents.{
  Holds, IsValid, Returns, get_or_create-Holds, string_eq_sound, integer_index-injective, held-set,
  held-append_replicate,
}
use caf.Fuzzer.ObjectPool.Singles.{create_value-Returns}

-- The placeholder at the index, and the pool that has it.
unfoldable pub placed : ℕ → ObjectPool → Value × ObjectPool
placed i p =
    let v = get_or_create (held (placeholder_table i p) i) (Value.placeholder i) in
    (v, record p { placeholder_values = set (placeholder_table i p) i (some v) })

placeholder_table-lt : (i : ℕ) (p : ObjectPool) → i < length (placeholder_table i p)
placeholder_table-lt i p = elim (Bool-cases (leb (length p.placeholder_values) i)) [
  | inl e ↦
      let short = leb→le (length p.placeholder_values) i e in
      let n = i + 1 - length p.placeholder_values in
      rw e (
        omega (
          arith,
          short,
          length-append p.placeholder_values (replicate n none),
          length-replicate {A = Option Value} n none,
        ))
  | inr e ↦ rw e (ground (arith, e))
]

at-held :
    {A : Type 0} (table : List (Option Value)) (i : ℕ) (next : Option Value → A)
    → i < length table
    → (or_throw out_of_range (get_elem? table i) >>= λ slot. ok (next slot))
      ≡ ok (next (held table i))
at-held [] i next h = absurd (omega (arith, h))
at-held (slot ∷ table) zero next h = refl
at-held (slot ∷ table) (suc i) next h = at-held table i next (omega (arith, h))

-- The index is inside the table.
pub get_placeholder_value-placed :
    (i : ℕ) (p : ObjectPool) → get_placeholder_value i p ≡ ok (placed i p)
unfolding get_placeholder_value placed
get_placeholder_value-placed i p =
    at-held (placeholder_table i p) i
      (λ slot.
        let v = get_or_create slot (Value.placeholder i) in
        (v, record p { placeholder_values = set (placeholder_table i p) i (some v) }))
      (placeholder_table-lt i p)

module _ (p : ObjectPool) (v : IsValid p) where
  strings-insert :
      (s t : List ℕ)
      → Holds (lookup_string t ((s, Value.string s) ∷ p.str_to_value)) (Value.string t)
  strings-insert s t w h = ground (arith, v.strings t w, string_eq_sound s t)

  -- A valid pool returns the string that is asked for, short or long, found or made, stays valid, and
  -- keeps its arrays.
  pub get_or_create_string_value-Returns :
      (s : List ℕ) → Returns (Value.string s) p (get_or_create_string_value s p)
  unfolding get_or_create_string_value
  get_or_create_string_value-Returns s = elim (Bool-cases (leb (length s) 10)) [
    | inl short ↦
        rw (short, get_or_create_string_value)
          (elim (Option-cases (lookup_string s p.str_to_value)) [
            | inl e ↦ rw e (record {
              value = refl;
              valid = record {
                undef = v.undef;
                null_value = v.null_value;
                functions = v.functions;
                bool_false = v.bool_false;
                bool_true = v.bool_true;
                strings = strings-insert s;
                integers = v.integers;
                placeholders = v.placeholders;
              };
              arrays = refl;
            })
            | inr (w, e) ↦ rw e (record { value = v.strings s w e; valid = v; arrays = refl })
          ])
    | inr long ↦ rw (long, get_or_create_string_value) (create_value-Returns p v (Value.string s))
  ]

  integers-set :
      (m i : ℕ)
      → m < 2 ^ 32
      → integer_index m ≡ some i
      → (n j : ℕ) → n < 2 ^ 32
      → integer_index n ≡ some j
      → Holds (held (set p.int_table i (some (Value.integer m))) j) (Value.integer n)
  integers-set m i hm e n j hn e' w h = elim (held-set p.int_table i j (Value.integer m) w h) [
    | inl (same, found) ↦ cc (found, integer_index-injective m n j hm hn (rw same at e) e')
    | inr old ↦ v.integers n j hn e' w old
  ]

  -- A valid pool returns the 32-bit integer that is asked for, in the table or not, found or made,
  -- stays valid, and keeps its arrays.
  pub get_or_create_integer_value-Returns :
      (n : ℕ) → n < 2 ^ 32 → Returns (Value.integer n) p (get_or_create_integer_value n p)
  unfolding get_or_create_integer_value
  get_or_create_integer_value-Returns n hn = elim (Option-cases (integer_index n)) [
    | inl e ↦ rw (e, get_or_create_integer_value) (create_value-Returns p v (Value.integer n))
    | inr (i, e) ↦
        rw (e, get_or_create_integer_value)
          (elim (Option-cases (held p.int_table i)) [
            | inl empty ↦ rw empty (record {
              value = refl;
              valid = record {
                undef = v.undef;
                null_value = v.null_value;
                functions = v.functions;
                bool_false = v.bool_false;
                bool_true = v.bool_true;
                strings = v.strings;
                integers = integers-set n i hn e;
                placeholders = v.placeholders;
              };
              arrays = refl;
            })
            | inr (w, full) ↦
                rw full (record { value = v.integers n i hn e w full; valid = v; arrays = refl })
          ])
  ]

  placeholders-set :
      (xs : List (Option Value)) (i : ℕ)
      → ((j : ℕ) → held xs j ≡ held p.placeholder_values j)
      → (j : ℕ) → Holds (held (set xs i (some (Value.placeholder i))) j) (Value.placeholder j)
  placeholders-set xs i same j w h = elim (held-set xs i j (Value.placeholder i) w h) [
    | inl (e, found) ↦ cc (found, e)
    | inr old ↦ v.placeholders j w (sym (same j) ∙ old)
  ]

  placeholder_table-held : (i j : ℕ) → held (placeholder_table i p) j ≡ held p.placeholder_values j
  placeholder_table-held i j = elim (Bool-cases (leb (length p.placeholder_values) i)) [
    | inl e ↦ rw e (held-append_replicate p.placeholder_values _ j)
    | inr e ↦ rw e
  ]

  pub placed-Returns : (i : ℕ) → Returns (Value.placeholder i) p (placed i p)
  unfolding placed
  placed-Returns i =
      let e =
        get_or_create-Holds _ (Value.placeholder i)
          (λ w h. v.placeholders i w (sym (placeholder_table-held i i) ∙ h)) in
      record {
        value = e;
        valid = record {
          undef = v.undef;
          null_value = v.null_value;
          functions = v.functions;
          bool_false = v.bool_false;
          bool_true = v.bool_true;
          strings = v.strings;
          integers = v.integers;
          placeholders = rw e (placeholders-set _ i (placeholder_table-held i));
        };
        arrays = refl;
      }

  -- A valid pool returns the placeholder that is asked for, where its table has to grow too: the index
  -- is then inside the table. The pool stays valid, and keeps its arrays.
  pub get_placeholder_value-Returns :
      (i : ℕ) → Succeeds (Returns (Value.placeholder i) p) (get_placeholder_value i p)
  get_placeholder_value-Returns i =
      rw (get_placeholder_value-placed i p) (returns_ok (placed i p) (placed-Returns i))
