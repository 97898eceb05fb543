-- ===== src/Fuzzer/Mutator/Fixer/Once.antt =====
-- What PlaceholderFixer of src/Fuzzer/TestCaseMutator.cpp is for, said without a traversal: each
-- array that it comes to has its placeholders replaced once, and every other array stays.
use caf.Prelude.{
  ℕ, zero, suc, ◌+◌, ◌≤◌, ◌<◌, ◌≡◌, Bool, true, false, Option, none, some, List, [], ◌∷◌, length,
  map, arith, All,
}
use caf.Fuzzer.Value.{Value, Arrays, elements}
use caf.Fuzzer.Mutator.Fixer.{member}

-- A placeholder with its index changed by `move`.
abbrev pub move_placeholder : (ℕ → ℕ) → Value → Value
move_placeholder move (Value.placeholder j) = Value.placeholder (move j)
move_placeholder move v = v

abbrev pub move_all : (ℕ → ℕ) → Option (List Value) → Option (List Value)
move_all move none = none
move_all move (some xs) = some (map (move_placeholder move) xs)

-- An array by whether it was gone through before, and whether it is now.
abbrev pub moved : (ℕ → ℕ) → Bool → Bool → Option (List Value) → Option (List Value)
moved move true after xs = xs
moved move false true xs = move_all move xs
moved move false false xs = xs

-- An array has been gone through; other values have nothing to go through.
abbrev pub Visited : List ℕ → Value → Type 0
Visited fixed (Value.array a) = member a fixed ≡ true
Visited fixed v = Unit {0}

pub record Once (move : ℕ → ℕ) (before after : List ℕ) (heap heap' : Arrays) : Type 0 where
  pub same_length : length heap' ≡ length heap
  pub kept : (b : ℕ) → member b before ≡ true → member b after ≡ true
  pub contents :
      (b : ℕ) → elements heap' b ≡ moved move (member b before) (member b after) (elements heap b)
  pub finished :
      (b : ℕ) (xs : List Value)
      → member b before ≡ false
      → member b after ≡ true
      → elements heap' b ≡ some xs
      → All (Visited after) xs

-- The arrays that a value refers to are there.
abbrev pub Address : ℕ → Value → Type 0
Address n (Value.array a) = a < n
Address n v = Unit {0}

abbrev pub IsClosed : ℕ → Arrays → Type 0
IsClosed n heap = (b : ℕ) (xs : List Value) → elements heap b ≡ some xs → All (Address n) xs

-- How many of the arrays below `n` have not been gone through.
abbrev pub count_if_not : Bool → ℕ
count_if_not true = 0
count_if_not false = 1

abbrev pub free_below : ℕ → List ℕ → ℕ
free_below zero fixed = 0
free_below (suc n) fixed = count_if_not (member n fixed) + free_below n fixed

pub free_below-le : (n : ℕ) (fixed : List ℕ) → free_below n fixed ≤ n
free_below-le zero fixed = omega arith
free_below-le (suc n) fixed = ground (arith, free_below-le n fixed)

pub free_below_mono :
    (n : ℕ) (fixed fixed' : List ℕ)
    → ((b : ℕ) → member b fixed ≡ true → member b fixed' ≡ true)
    → free_below n fixed' ≤ free_below n fixed
free_below_mono zero fixed fixed' kept = omega arith
free_below_mono (suc n) fixed fixed' kept =
    ground (arith, kept n, free_below_mono n fixed fixed' kept)

free_below-cons_le : (n a : ℕ) (fixed : List ℕ) → free_below n (a ∷ fixed) ≤ free_below n fixed
free_below-cons_le n a fixed = free_below_mono n fixed (a ∷ fixed) (λ b h. ground (arith, h))

pub free_below-cons_lt :
    (n a : ℕ) (fixed : List ℕ)
    → a < n
    → member a fixed ≡ false
    → free_below n (a ∷ fixed) < free_below n fixed
free_below-cons_lt zero a fixed h e = absurd (omega arith)
free_below-cons_lt (suc n) a fixed h e =
    ground (arith, free_below-cons_le n a fixed, free_below-cons_lt n a fixed)

pub Visited-mono :
    (fixed fixed' : List ℕ) (v : Value)
    → ((b : ℕ) → member b fixed ≡ true → member b fixed' ≡ true)
    → Visited fixed v
    → Visited fixed' v
Visited-mono fixed fixed' (Value.array a) kept h = kept a h
Visited-mono fixed fixed' (Value.placeholder j) kept h = tt
Visited-mono fixed fixed' Value.undefined kept h = tt
Visited-mono fixed fixed' Value.null kept h = tt
Visited-mono fixed fixed' (Value.boolean b) kept h = tt
Visited-mono fixed fixed' (Value.string s) kept h = tt
Visited-mono fixed fixed' (Value.function f) kept h = tt
Visited-mono fixed fixed' (Value.integer i) kept h = tt
Visited-mono fixed fixed' (Value.float d) kept h = tt

pub All-Visited-mono :
    (fixed fixed' : List ℕ) (xs : List Value)
    → ((b : ℕ) → member b fixed ≡ true → member b fixed' ≡ true)
    → All (Visited fixed) xs
    → All (Visited fixed') xs
All-Visited-mono fixed fixed' [] kept h = tt
All-Visited-mono fixed fixed' (x ∷ xs) kept h =
    (Visited-mono fixed fixed' x kept h.0, All-Visited-mono fixed fixed' xs kept h.1)
