-- ===== src/Fuzzer/ObjectPool/Leaves.antt =====
-- The values that src/Fuzzer/ObjectPool.cpp owns one by one, in `_values`, `_nan` and `_inf`: those
-- that refer to no array and to no call.
use caf.Prelude.{
  ℕ, ◌^◌, ◌<◌, ◌≡◌, refl, sym, subst, Bool, true, false, Option, none, some, List, [], ◌∷◌, length,
  leb, All, All-append, Bool-cases, Option-cases, inl, inr, lookup,
}
use caf.Fuzzer.Value.{Value, Arrays}
use caf.Fuzzer.ObjectPool.{
  ObjectPool, create_value, get_undefined_value, get_null_value, get_function_value,
  get_boolean_value, get_or_create_string_value, get_or_create_integer_value,
  get_or_create_float_value, lookup_string, integer_index, held, fpclassify, FloatClass,
  get_or_create, new_object_pool,
}
use caf.Fuzzer.ObjectPool.Contents.{IsValid, Returns, with_arrays-IsValid}
use caf.Fuzzer.ObjectPool.Singles.{
  get_undefined_value-Returns, get_null_value-Returns, get_function_value-Returns,
  get_boolean_value-Returns, create_value-Returns,
}
use caf.Fuzzer.ObjectPool.Tables.{
  placed, get_or_create_string_value-Returns, get_or_create_integer_value-Returns,
}

abbrev pub IsLeaf : Value → Type 0
IsLeaf (Value.array a) = ⊥
IsLeaf (Value.placeholder j) = ⊥
IsLeaf v = Unit {0}

abbrev pub LeafSlot : Option Value → Type 0
LeafSlot none = Unit {0}
LeafSlot (some v) = IsLeaf v

pub record IsLeafPool (p : ObjectPool) : Type 0 where
  pub values : All IsLeaf p.values
  pub nan : LeafSlot p.nan
  pub inf : LeafSlot p.inf

-- A call that gives a leaf, and keeps the pool valid and the arrays as they are.
pub record GivesLeaf (p : ObjectPool) (r : Value × ObjectPool) : Type 0 where
  pub leaf : IsLeaf r.0
  pub valid : IsValid r.1
  pub leaves : IsLeafPool r.1
  pub arrays : r.1.array_values ≡ p.array_values

pub new_object_pool-IsLeafPool : IsLeafPool new_object_pool
unfolding new_object_pool
new_object_pool-IsLeafPool = record { values = tt; nan = tt; inf = tt }

module _ (p : ObjectPool) (valid : IsValid p) (l : IsLeafPool p) where
  gives-leaf :
      {r : Value × ObjectPool} (v : Value)
      → IsLeaf v
      → Returns v p r
      → IsLeafPool r.1
      → GivesLeaf p r
  gives-leaf v h ret k = record {
    leaf = subst IsLeaf (sym ret.value) h;
    valid = ret.valid;
    leaves = k;
    arrays = ret.arrays;
  }

  create_value-IsLeafPool : (v : Value) → IsLeaf v → IsLeafPool (create_value v p).1
  unfolding create_value
  create_value-IsLeafPool v h = record {
    values = All-append IsLeaf p.values (v ∷ []) l.values (h, tt);
    nan = l.nan;
    inf = l.inf;
  }

  pub get_undefined_value-GivesLeaf : GivesLeaf p (get_undefined_value p)
  unfolding get_undefined_value
  get_undefined_value-GivesLeaf =
      gives-leaf Value.undefined tt (get_undefined_value-Returns p valid)
        (record { values = l.values; nan = l.nan; inf = l.inf })

  pub get_null_value-GivesLeaf : GivesLeaf p (get_null_value p)
  unfolding get_null_value
  get_null_value-GivesLeaf =
      gives-leaf Value.null tt (get_null_value-Returns p valid)
        (record { values = l.values; nan = l.nan; inf = l.inf })

  boolean-IsLeafPool : (b : Bool) → IsLeafPool (get_boolean_value b p).1
  unfolding get_boolean_value
  boolean-IsLeafPool true = record { values = l.values; nan = l.nan; inf = l.inf }
  boolean-IsLeafPool false = record { values = l.values; nan = l.nan; inf = l.inf }

  pub get_boolean_value-GivesLeaf : (b : Bool) → GivesLeaf p (get_boolean_value b p)
  get_boolean_value-GivesLeaf b =
      gives-leaf (Value.boolean b) tt (get_boolean_value-Returns p valid b) (boolean-IsLeafPool b)

  function-IsLeafPool : (f : ℕ) → IsLeafPool (get_function_value f p).1
  unfolding get_function_value
  function-IsLeafPool f = elim (Option-cases (lookup f p.func_values)) [
    | inl e ↦ rw (e, get_function_value) (record { values = l.values; nan = l.nan; inf = l.inf })
    | inr (v, e) ↦ rw (e, get_function_value) l
  ]

  pub get_function_value-GivesLeaf : (f : ℕ) → GivesLeaf p (get_function_value f p)
  get_function_value-GivesLeaf f =
      gives-leaf (Value.function f) tt (get_function_value-Returns p valid f)
        (function-IsLeafPool f)

  string-IsLeafPool : (s : List ℕ) → IsLeafPool (get_or_create_string_value s p).1
  unfolding get_or_create_string_value
  string-IsLeafPool s =
      let made = create_value-IsLeafPool (Value.string s) tt in
      elim (Bool-cases (leb (length s) 10)) [
        | inl short ↦
            rw (short, get_or_create_string_value)
              (elim (Option-cases (lookup_string s p.str_to_value)) [
                | inl e ↦ rw e (record { values = made.values; nan = l.nan; inf = l.inf })
                | inr (v, e) ↦ rw e l
              ])
        | inr long ↦ rw (long, get_or_create_string_value) made
      ]

  pub get_or_create_string_value-GivesLeaf :
      (s : List ℕ) → GivesLeaf p (get_or_create_string_value s p)
  get_or_create_string_value-GivesLeaf s =
      gives-leaf (Value.string s) tt (get_or_create_string_value-Returns p valid s)
        (string-IsLeafPool s)

  integer-IsLeafPool : (n : ℕ) → IsLeafPool (get_or_create_integer_value n p).1
  unfolding get_or_create_integer_value
  integer-IsLeafPool n =
      let made = create_value-IsLeafPool (Value.integer n) tt in
      elim (Option-cases (integer_index n)) [
        | inl e ↦ rw (e, get_or_create_integer_value) made
        | inr (i, e) ↦
            rw (e, get_or_create_integer_value)
              (elim (Option-cases (held p.int_table i)) [
                | inl e' ↦ rw e' (record { values = made.values; nan = l.nan; inf = l.inf })
                | inr (v, e') ↦ rw e' l
              ])
      ]

  pub get_or_create_integer_value-GivesLeaf :
      (n : ℕ) → n < 2 ^ 32 → GivesLeaf p (get_or_create_integer_value n p)
  get_or_create_integer_value-GivesLeaf n below =
      gives-leaf (Value.integer n) tt (get_or_create_integer_value-Returns p valid n below)
        (integer-IsLeafPool n)

  get_or_create-IsLeaf :
      (slot : Option Value) (v : Value) → LeafSlot slot → IsLeaf v → IsLeaf (get_or_create slot v)
  get_or_create-IsLeaf none v h k = k
  get_or_create-IsLeaf (some w) v h k = h

  float-GivesLeaf :
      (d : ℕ) (c : FloatClass) → fpclassify d ≡ c → GivesLeaf p (get_or_create_float_value d p)
  unfolding get_or_create_float_value
  float-GivesLeaf d FloatClass.fp_nan e =
      let made = get_or_create-IsLeaf p.nan (Value.float 0x7ff8_0000_0000_0000) l.nan tt in
      rw (e, get_or_create_float_value)
        (record {
          leaf = made;
          valid = record {
            undef = valid.undef;
            null_value = valid.null_value;
            functions = valid.functions;
            bool_false = valid.bool_false;
            bool_true = valid.bool_true;
            strings = valid.strings;
            integers = valid.integers;
            placeholders = valid.placeholders;
          };
          leaves = record { values = l.values; nan = made; inf = l.inf };
          arrays = refl;
        })
  float-GivesLeaf d FloatClass.fp_infinite e =
      let made = get_or_create-IsLeaf p.inf (Value.float _) l.inf tt in
      rw (e, get_or_create_float_value)
        (record {
          leaf = made;
          valid = record {
            undef = valid.undef;
            null_value = valid.null_value;
            functions = valid.functions;
            bool_false = valid.bool_false;
            bool_true = valid.bool_true;
            strings = valid.strings;
            integers = valid.integers;
            placeholders = valid.placeholders;
          };
          leaves = record { values = l.values; nan = l.nan; inf = made };
          arrays = refl;
        })
  float-GivesLeaf d FloatClass.fp_other e =
      rw (e, get_or_create_float_value)
        (gives-leaf (Value.float d) tt (create_value-Returns p valid (Value.float d))
          (create_value-IsLeafPool (Value.float d) tt))

  pub get_or_create_float_value-GivesLeaf : (d : ℕ) → GivesLeaf p (get_or_create_float_value d p)
  get_or_create_float_value-GivesLeaf d = float-GivesLeaf d (fpclassify d) refl

  pub placed-IsLeafPool : (j : ℕ) → IsLeafPool (placed j p).1
  unfolding placed
  placed-IsLeafPool j = record { values = l.values; nan = l.nan; inf = l.inf }

-- A valid pool of leaves.
pub record IsSound (p : ObjectPool) : Type 0 where
  pub valid : IsValid p
  pub leaves : IsLeafPool p

pub with_arrays-IsSound :
    (p : ObjectPool) (heap : Arrays) → IsSound p → IsSound (record p { array_values = heap })
with_arrays-IsSound p heap s = record {
  valid = with_arrays-IsValid p s.valid heap;
  leaves = record { values = s.leaves.values; nan = s.leaves.nan; inf = s.leaves.inf };
}
