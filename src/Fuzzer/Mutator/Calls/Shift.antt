-- ===== src/Fuzzer/Mutator/Calls/Shift.antt =====
-- The scope of values where the placeholders are moved, as AddFunctionCall of
-- src/Fuzzer/TestCaseMutator.cpp moves them.
use caf.Prelude.{
  ℕ, ◌+◌, ◌≤◌, ◌≡◌, refl, sym, subst, ◌∙◌, Bool, true, false, Option, none, some, List, [], ◌∷◌,
  length, map, All, arith, leb, if◌then◌else◌, some-injective,
}
use caf.Fuzzer.Value.{Value, Arrays, elements}
use caf.Fuzzer.TestCase.{FunctionCall}
use caf.Fuzzer.Scope.{InScope, CallInScope, CallsInScope, ArraysInScope}
use caf.Fuzzer.Mutator.Fixer.{member}
use caf.Fuzzer.Mutator.Fixer.Once.{Once, move_placeholder, moved, Address, IsClosed}
use caf.Fuzzer.Mutator.Fixer.Whole.{move_call, move_this, AllValues, AllThis}
use caf.Fuzzer.Mutator.Calls.{index_after_insert}

InScope-Address : (level : ℕ → ℕ) (n i : ℕ) (v : Value) → InScope level n i v → Address n v
InScope-Address level n i (Value.placeholder j) h = tt
InScope-Address level n i (Value.array a) h = h.0
InScope-Address level n i Value.undefined h = tt
InScope-Address level n i Value.null h = tt
InScope-Address level n i (Value.boolean b) h = tt
InScope-Address level n i (Value.string s) h = tt
InScope-Address level n i (Value.function f) h = tt
InScope-Address level n i (Value.integer k) h = tt
InScope-Address level n i (Value.float d) h = tt

All-Address :
    (level : ℕ → ℕ) (n i : ℕ) (vs : List Value) → All (InScope level n i) vs → All (Address n) vs
All-Address level n i [] h = tt
All-Address level n i (v ∷ vs) h = (InScope-Address level n i v h.0, All-Address level n i vs h.1)

pub ArraysInScope-IsClosed :
    (level : ℕ → ℕ) (heap : Arrays) → ArraysInScope level heap → IsClosed (length heap) heap
ArraysInScope-IsClosed level heap h a xs e = All-Address level (length heap) (level a) xs (h a xs e)

this-Address :
    (level : ℕ → ℕ) (n i : ℕ) (call : FunctionCall) (this : Option Value)
    → call.this ≡ this
    → CallInScope level n i call
    → AllThis (Address n) this
this-Address level n i call none e h = tt
this-Address level n i call (some v) e h =
    InScope-Address level n i v
      (subst (λ this. InScope level n i (elim this [ none ↦ Value.undefined | some w ↦ w ])) e h.0)

pub CallsInScope-AllValues :
    (level : ℕ → ℕ) (n i : ℕ) (calls : List FunctionCall)
    → CallsInScope level n i calls
    → All (AllValues (Address n)) calls
CallsInScope-AllValues level n i [] h = tt
CallsInScope-AllValues level n i (call ∷ calls) h = (
  (this-Address level n i call call.this refl h.0, All-Address level n i call.args h.0.1),
  CallsInScope-AllValues level n (i + 1) calls h.1,
)

-- An array that belongs to a call after `index` belongs to a later call now.
abbrev pub shift : ℕ → ℕ → ℕ
shift index l = if leb l index then l else l + 1

module _ (level : ℕ → ℕ) (n index : ℕ) where
  abbrev pub shifted : ℕ → ℕ
  shifted a = shift index (level a)

  -- A value that is not moved.
  kept-InScope :
      (i i' : ℕ)
      → i ≤ i'
      → shift index i ≤ i'
      → (v : Value) → InScope level n i v
      → InScope shifted n i' v
  kept-InScope i i' le h (Value.placeholder j) k = omega (arith, le, k)
  kept-InScope i i' le h (Value.array a) k = (k.0, ground (arith, le, h, k.1))
  kept-InScope i i' le h Value.undefined k = tt
  kept-InScope i i' le h Value.null k = tt
  kept-InScope i i' le h (Value.boolean b) k = tt
  kept-InScope i i' le h (Value.string s) k = tt
  kept-InScope i i' le h (Value.function f) k = tt
  kept-InScope i i' le h (Value.integer m) k = tt
  kept-InScope i i' le h (Value.float d) k = tt

  moved-InScope :
      (i i' : ℕ)
      → shift index i ≤ i'
      → (v : Value) → InScope level n i v
      → InScope shifted n i' (move_placeholder (index_after_insert index) v)
  moved-InScope i i' h (Value.placeholder j) k = ground (arith, h, k)
  moved-InScope i i' h (Value.array a) k = (k.0, ground (arith, h, k.1))
  moved-InScope i i' h Value.undefined k = tt
  moved-InScope i i' h Value.null k = tt
  moved-InScope i i' h (Value.boolean b) k = tt
  moved-InScope i i' h (Value.string s) k = tt
  moved-InScope i i' h (Value.function f) k = tt
  moved-InScope i i' h (Value.integer m) k = tt
  moved-InScope i i' h (Value.float d) k = tt

  All-kept :
      (i i' : ℕ)
      → i ≤ i'
      → shift index i ≤ i'
      → (vs : List Value) → All (InScope level n i) vs
      → All (InScope shifted n i') vs
  All-kept i i' le h [] k = tt
  All-kept i i' le h (v ∷ vs) k = (kept-InScope i i' le h v k.0, All-kept i i' le h vs k.1)

  All-moved :
      (i i' : ℕ)
      → shift index i ≤ i'
      → (vs : List Value) → All (InScope level n i) vs
      → All (InScope shifted n i') (map (move_placeholder (index_after_insert index)) vs)
  All-moved i i' h [] k = tt
  All-moved i i' h (v ∷ vs) k = (moved-InScope i i' h v k.0, All-moved i i' h vs k.1)

  pub kept-CallInScope :
      (i : ℕ) (call : FunctionCall)
      → i ≤ index
      → CallInScope level n i call
      → CallInScope shifted n i call
  kept-CallInScope i call le h = (
    kept-InScope i i (omega arith) (ground (arith, le)) _ h.0,
    All-kept i i (omega arith) (ground (arith, le)) call.args h.1,
  )

  moved_this :
      (i i' : ℕ)
      → shift index i ≤ i'
      → (this : Option Value)
      → InScope level n i (elim this [ none ↦ Value.undefined | some v ↦ v ])
      → InScope shifted n i'
          (elim (move_this (index_after_insert index) this) [ none ↦ Value.undefined | some v ↦ v ])
  moved_this i i' h none k = tt
  moved_this i i' h (some v) k = moved-InScope i i' h v k

  -- The calls after the one that is inserted.
  pub moved-CallsInScope :
      (i : ℕ) (calls : List FunctionCall)
      → index ≤ i
      → CallsInScope level n i calls
      → CallsInScope shifted n (i + 1) (map (move_call (index_after_insert index)) calls)
  moved-CallsInScope i [] le h = tt
  moved-CallsInScope i (call ∷ calls) le h = (
    (
      moved_this i (i + 1) (ground (arith, le)) call.this h.0.0,
      All-moved i (i + 1) (ground (arith, le)) call.args h.0.1,
    ),
    moved-CallsInScope (i + 1) calls (omega (arith, le)) h.1,
  )

  moved-elements :
      (l : ℕ) (before after : Bool) (xs : Option (List Value)) (ys : List Value)
      → ((zs : List Value) → xs ≡ some zs → All (InScope level n l) zs)
      → moved (index_after_insert index) before after xs ≡ some ys
      → All (InScope shifted n (shift index l)) ys
  moved-elements l true after xs ys h e =
      All-kept l (shift index l) (ground arith) (omega arith) ys (h ys e)
  moved-elements l false true none ys h e = absurd (cc e)
  moved-elements l false true (some zs) ys h e =
      rw (some-injective _ _ e) at (All-moved l (shift index l) (omega arith) zs (h zs refl))
  moved-elements l false false xs ys h e =
      All-kept l (shift index l) (ground arith) (omega arith) ys (h ys e)

pub moved-ArraysInScope :
    (level : ℕ → ℕ) (index : ℕ) (after : List ℕ) (heap heap' : Arrays)
    → ArraysInScope level heap
    → Once (index_after_insert index) [] after heap heap'
    → ArraysInScope (shifted level (length heap) index) heap'
moved-ArraysInScope level index after heap heap' h o a ys e = rw o.same_length (
    moved-elements level (length heap) index (level a) false (member a after) (elements heap a) ys
      (h a) (sym (o.contents a) ∙ e))
