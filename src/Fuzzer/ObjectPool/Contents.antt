-- ===== src/Fuzzer/ObjectPool/Contents.antt =====
-- What the caches of src/Fuzzer/ObjectPool.cpp may hold.
use caf.Prelude.{
  get_elem?, ℕ, zero, suc, ◌^◌, ◌<◌, ◌≡◌, refl, true, false, Option, none, some, List, [], ◌∷◌,
  ◌++◌, set, replicate, lookup, arith, ◌⊎◌, inl, inr,
}
use caf.Fuzzer.Value.{Value, Arrays}
use caf.Fuzzer.ObjectPool.{
  ObjectPool, new_object_pool, integer_index, held, create_array_value, clear, lookup_string,
  string_eq, get_or_create, integer_table_size,
}

-- What the pointer holds, if it is not null.
abbrev pub Holds : Option Value → Value → Type 0
Holds slot v = (w : Value) → slot ≡ some w → w ≡ v

pub record IsValid (p : ObjectPool) : Type 0 where
  pub undef : Holds p.undef Value.undefined
  pub null_value : Holds p.null_value Value.null
  pub functions : (f : ℕ) → Holds (lookup f p.func_values) (Value.function f)
  pub bool_false : Holds p.bool_false (Value.boolean false)
  pub bool_true : Holds p.bool_true (Value.boolean true)
  pub strings : (s : List ℕ) → Holds (lookup_string s p.str_to_value) (Value.string s)
  pub integers :
      (n i : ℕ)
      → n < 2 ^ 32
      → integer_index n ≡ some i
      → Holds (held p.int_table i) (Value.integer n)
  pub placeholders : (i : ℕ) → Holds (held p.placeholder_values i) (Value.placeholder i)

pub get_or_create-Holds :
    (slot : Option Value) (v : Value) → Holds slot v → get_or_create slot v ≡ v
get_or_create-Holds none v h = refl
get_or_create-Holds (some w) v h = h w refl

pub string_eq_sound : (s t : List ℕ) → string_eq s t ≡ true → s ≡ t
string_eq_sound [] [] h = refl
string_eq_sound [] (c ∷ t) h = cc
string_eq_sound (b ∷ s) [] h = cc
string_eq_sound (b ∷ s) (c ∷ t) h = ground (arith, string_eq_sound s t)

pub string_eq_refl : (s : List ℕ) → string_eq s s ≡ true
string_eq_refl [] = refl
string_eq_refl (b ∷ s) = ground (arith, string_eq_refl s)

-- Two 32-bit integers that have the same slot of the integer table are the same.
pub integer_index-injective :
    (m n i : ℕ)
    → m < 2 ^ 32
    → n < 2 ^ 32
    → integer_index m ≡ some i
    → integer_index n ≡ some i
    → m ≡ n
unfolding integer_index
integer_index-injective m n i hm hn h k = ground arith

pub integer_index-lt : (n i : ℕ) → integer_index n ≡ some i → i < integer_table_size
unfolding integer_index
integer_index-lt n i h = ground arith

held-replicate : (n i : ℕ) → held (replicate n none) i ≡ none
held-replicate zero i = refl
held-replicate (suc n) zero = refl
held-replicate (suc n) (suc i) = held-replicate n i

pub held-append_replicate :
    (xs : List (Option Value)) (n i : ℕ) → held (xs ++ replicate n none) i ≡ held xs i
held-append_replicate [] n i = held-replicate n i
held-append_replicate (x ∷ xs) n zero = refl
held-append_replicate (x ∷ xs) n (suc i) = held-append_replicate xs n i

pub held-set :
    (xs : List (Option Value)) (i j : ℕ) (v w : Value)
    → held (set xs i (some v)) j ≡ some w
    → ((i ≡ j) × (w ≡ v)) ⊎ (held xs j ≡ some w)
held-set [] i j v w h = inr h
held-set (x ∷ xs) zero zero v w h = inl (refl, cc)
held-set (x ∷ xs) zero (suc j) v w h = inr h
held-set (x ∷ xs) (suc i) zero v w h = inr h
held-set (x ∷ xs) (suc i) (suc j) v w h = ground (arith, held-set xs i j v w h)

-- A call that returns `v`, keeps the caches valid and leaves the arrays alone.
pub record Returns (v : Value) (p : ObjectPool) (r : Value × ObjectPool) : Type 0 where
  pub value : r.0 ≡ v
  pub valid : IsValid r.1
  pub arrays : r.1.array_values ≡ p.array_values

pub new_object_pool-IsValid : IsValid new_object_pool
unfolding new_object_pool
new_object_pool-IsValid = record {
  undef = λ w h. cc;
  null_value = λ w h. cc;
  functions = λ f w h. cc;
  bool_false = λ w h. cc;
  bool_true = λ w h. cc;
  strings = λ s w h. cc;
  integers = λ n i b e w h. cc (held-replicate integer_table_size i);
  placeholders = λ i w h. cc (held-replicate 10 i);
}

-- The value is one of those that the pool owns.
abbrev pub Owned : List Value → Value → Type 0
Owned values w = (k : ℕ) × (get_elem? values k ≡ some w)

-- The tables of strings and integers lead to values that are there.
pub record IsOwned (p : ObjectPool) : Type 0 where
  pub strings :
      (s : List ℕ) (w : Value) → lookup_string s p.str_to_value ≡ some w → Owned p.values w
  pub integers : (i : ℕ) (w : Value) → held p.int_table i ≡ some w → Owned p.values w

-- A valid pool is still valid when it is cleared, and no entry of its tables of strings and integers
-- is left for a value that is gone.
pub clear-IsOwned : {p : ObjectPool} → IsValid p → IsValid (clear p) × IsOwned (clear p)
unfolding clear
clear-IsOwned v = (
  record {
    undef = v.undef;
    null_value = v.null_value;
    functions = v.functions;
    bool_false = v.bool_false;
    bool_true = v.bool_true;
    strings = λ s w h. cc;
    integers = λ n i b e w h. cc (held-replicate integer_table_size i);
    placeholders = v.placeholders;
  },
  record {
    strings = λ s w h. absurd (cc h);
    integers = λ i w h. absurd (cc (h, held-replicate integer_table_size i));
  },
)

module _ (p : ObjectPool) (v : IsValid p) where
  pub create_array_value-IsValid : IsValid (create_array_value p).1
  unfolding create_array_value
  create_array_value-IsValid = record {
    undef = v.undef;
    null_value = v.null_value;
    functions = v.functions;
    bool_false = v.bool_false;
    bool_true = v.bool_true;
    strings = v.strings;
    integers = v.integers;
    placeholders = v.placeholders;
  }

  pub with_arrays-IsValid : (heap : Arrays) → IsValid (record p { array_values = heap })
  with_arrays-IsValid heap = record {
    undef = v.undef;
    null_value = v.null_value;
    functions = v.functions;
    bool_false = v.bool_false;
    bool_true = v.bool_true;
    strings = v.strings;
    integers = v.integers;
    placeholders = v.placeholders;
  }
