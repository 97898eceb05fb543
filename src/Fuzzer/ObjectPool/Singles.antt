-- ===== src/Fuzzer/ObjectPool/Singles.antt =====
-- The values of src/Fuzzer/ObjectPool.cpp that are made on their first use, and the plain objects.
use caf.Prelude.{ℕ, ◌≡◌, refl, Bool, true, false, lookup, insert, arith, inl, inr, Option-cases}
use caf.Fuzzer.Value.{Value}
use caf.Fuzzer.ObjectPool.{
  ObjectPool, get_undefined_value, get_null_value, get_function_value, get_boolean_value,
  get_or_create_float_value, create_value, FloatClass, fpclassify,
}
use caf.Fuzzer.ObjectPool.Contents.{Holds, IsValid, Returns, get_or_create-Holds}

module _ (p : ObjectPool) (v : IsValid p) where
  pub get_undefined_value-Returns : Returns Value.undefined p (get_undefined_value p)
  unfolding get_undefined_value
  get_undefined_value-Returns =
      let e = get_or_create-Holds p.undef Value.undefined v.undef in
      record {
        value = e;
        valid = record {
          undef = λ w h. cc e;
          null_value = v.null_value;
          functions = v.functions;
          bool_false = v.bool_false;
          bool_true = v.bool_true;
          strings = v.strings;
          integers = v.integers;
          placeholders = v.placeholders;
        };
        arrays = refl;
      }

  pub get_null_value-Returns : Returns Value.null p (get_null_value p)
  unfolding get_null_value
  get_null_value-Returns =
      let e = get_or_create-Holds p.null_value Value.null v.null_value in
      record {
        value = e;
        valid = record {
          undef = v.undef;
          null_value = λ w h. cc e;
          functions = v.functions;
          bool_false = v.bool_false;
          bool_true = v.bool_true;
          strings = v.strings;
          integers = v.integers;
          placeholders = v.placeholders;
        };
        arrays = refl;
      }

  -- A valid pool returns the boolean that is asked for, stays valid, and keeps its arrays.
  pub get_boolean_value-Returns : (b : Bool) → Returns (Value.boolean b) p (get_boolean_value b p)
  unfolding get_boolean_value
  get_boolean_value-Returns false =
      let e = get_or_create-Holds p.bool_false (Value.boolean false) v.bool_false in
      record {
        value = e;
        valid = record {
          undef = v.undef;
          null_value = v.null_value;
          functions = v.functions;
          bool_false = λ w h. cc e;
          bool_true = v.bool_true;
          strings = v.strings;
          integers = v.integers;
          placeholders = v.placeholders;
        };
        arrays = refl;
      }
  get_boolean_value-Returns true =
      let e = get_or_create-Holds p.bool_true (Value.boolean true) v.bool_true in
      record {
        value = e;
        valid = record {
          undef = v.undef;
          null_value = v.null_value;
          functions = v.functions;
          bool_false = v.bool_false;
          bool_true = λ w h. cc e;
          strings = v.strings;
          integers = v.integers;
          placeholders = v.placeholders;
        };
        arrays = refl;
      }

  functions-insert :
      (f g : ℕ) → Holds (lookup g (insert f (Value.function f) p.func_values)) (Value.function g)
  functions-insert f g w h = ground (arith, v.functions g w)

  -- A valid pool returns the function value that is asked for, stays valid, and keeps its arrays.
  pub get_function_value-Returns : (f : ℕ) → Returns (Value.function f) p (get_function_value f p)
  unfolding get_function_value
  get_function_value-Returns f = elim (Option-cases (lookup f p.func_values)) [
    | inl e ↦
        rw (e, get_function_value)
          (record {
            value = refl;
            valid = record {
              undef = v.undef;
              null_value = v.null_value;
              functions = functions-insert f;
              bool_false = v.bool_false;
              bool_true = v.bool_true;
              strings = v.strings;
              integers = v.integers;
              placeholders = v.placeholders;
            };
            arrays = refl;
          })
    | inr (w, e) ↦
        rw (e, get_function_value) (record { value = v.functions f w e; valid = v; arrays = refl })
  ]

  pub create_value-Returns : (u : Value) → Returns u p (create_value u p)
  unfolding create_value
  create_value-Returns u = record {
    value = refl;
    valid = record {
      undef = v.undef;
      null_value = v.null_value;
      functions = v.functions;
      bool_false = v.bool_false;
      bool_true = v.bool_true;
      strings = v.strings;
      integers = v.integers;
      placeholders = v.placeholders;
    };
    arrays = refl;
  }

  -- A number that is no NaN and no infinity is what comes back.
  pub get_or_create_float_value-Returns :
      (d : ℕ)
      → fpclassify d ≡ FloatClass.fp_other
      → Returns (Value.float d) p (get_or_create_float_value d p)
  unfolding get_or_create_float_value
  get_or_create_float_value-Returns d e =
      rw (e, get_or_create_float_value) (create_value-Returns (Value.float d))
