-- ===== src/Fuzzer/Mutator/Fixer/Steps.antt =====
-- How the runs of PlaceholderFixer in src/Fuzzer/TestCaseMutator.cpp go together: one after another,
-- and around an array.
use caf.Prelude.{
  subst, ℕ, ◌<◌, ◌≡◌, refl, sym, ap, ◌∙◌, Bool, true, false, Option, none, some, List, [], ◌∷◌,
  length, set, map, ◌==◌, ==_iff, Bool-cases, inl, inr, arith, All, length-set, get_elem?-set_self,
  get_elem?-set_ne, get_elem?_bound,
}
use caf.Fuzzer.Value.{Value, Arrays, elements}
use mathlib.Core.Option.{some-injective}
use caf.Fuzzer.Mutator.Fixer.{member}
use caf.Fuzzer.Mutator.Fixer.Once.{
  move_placeholder, moved, Visited, Once, Address, IsClosed, All-Visited-mono,
}

module _ (move : ℕ → ℕ) where
  pub Once-refl : (fixed : List ℕ) (heap : Arrays) → Once move fixed fixed heap heap
  Once-refl fixed heap = record {
    same_length = refl;
    kept = λ b h. h;
    contents = λ b. elim (Bool-cases (member b fixed)) [ inl e ↦ rw e | inr e ↦ rw e ];
    finished = λ b xs outside inside e. absurd (cc (outside, inside));
  }

  moved-moved :
      (b₁ b₂ b₃ : Bool) (xs : Option (List Value))
      → (b₁ ≡ true → b₂ ≡ true)
      → (b₂ ≡ true → b₃ ≡ true)
      → moved move b₂ b₃ (moved move b₁ b₂ xs) ≡ moved move b₁ b₃ xs
  moved-moved true true b₃ xs h k = refl
  moved-moved true false b₃ xs h k = absurd (cc (h refl))
  moved-moved false true true xs h k = refl
  moved-moved false true false xs h k = absurd (cc (k refl))
  moved-moved false false b₃ xs h k = refl

  pub Once-trans :
      {before between after : List ℕ} {heap heap' heap'' : Arrays}
      → Once move before between heap heap'
      → Once move between after heap' heap''
      → Once move before after heap heap''
  Once-trans {before} {between} {after} {heap} o p = record {
    same_length = p.same_length ∙ o.same_length;
    kept = λ b h. p.kept b (o.kept b h);
    contents = λ b.
        p.contents b
        ∙ ap (λ xs. moved move (member b between) (member b after) xs) (o.contents b)
        ∙ moved-moved (member b before) (member b between) (member b after) (elements heap b)
            (o.kept b) (p.kept b);
    finished = λ b xs outside inside e. elim (Bool-cases (member b between)) [
      | inl h ↦
          All-Visited-mono between after xs p.kept
            (o.finished b xs outside h (sym (p.contents b ∙ rw h) ∙ e))
      | inr h ↦ p.finished b xs h inside e
    ];
  }

  -- The content of an array that was gone through before does not matter.
  pub Once-set :
      (before after : List ℕ) (heap heap' : Arrays) (a : ℕ) (xs : List Value)
      → member a before ≡ true
      → a < length heap
      → Once move before after heap heap'
      → Once move before after (set heap a xs) (set heap' a xs)
  Once-set before after heap heap' a xs inside below o = record {
    same_length = omega (arith, length-set heap a xs, length-set heap' a xs, o.same_length);
    kept = o.kept;
    contents = λ b. elim (Bool-cases (a == b)) [
      | inl e ↦
          let a_b = (==_iff a b).0 e in
          rw (← a_b) (
            rw (
              get_elem?-set_self heap a xs below,
              get_elem?-set_self heap' a xs (omega (arith, below, o.same_length)),
              inside,
            ))
      | inr e ↦
          let ne = λ (a_b : a ≡ b). absurd (cc (e, (==_iff a b).1 a_b)) in
          rw (get_elem?-set_ne heap a b xs ne, get_elem?-set_ne heap' a b xs ne) (o.contents b)
    ];
    finished = λ b ys outside now e.
        let ne = λ (a_b : a ≡ b). absurd (cc (inside, outside, ap (λ c. member c before) a_b)) in
        o.finished b ys outside now (sym (get_elem?-set_ne heap' a b xs ne) ∙ e);
  }

  -- An array that is marked and then left moved has been gone through.
  pub Once-mark :
      (a : ℕ) (before after : List ℕ) (heap heap' : Arrays) (xs : List Value)
      → member a before ≡ false
      → elements heap a ≡ some xs
      → All (Visited after) (map (move_placeholder move) xs)
      → Once move (a ∷ before) after (set heap a (map (move_placeholder move) xs)) heap'
      → Once move before after heap heap'
  Once-mark a before after heap heap' xs outside e visited o =
      let below = get_elem?_bound heap a xs e in
      let ys = map (move_placeholder move) xs in
      let marked : member a (a ∷ before) ≡ true = ground arith in
      record {
        same_length = o.same_length ∙ length-set heap a ys;
        kept = λ b h. o.kept b (ground (arith, h));
        contents = λ b. elim (Bool-cases (a == b)) [
          | inl same ↦
              subst
                (λ c.
                  elements heap' c
                  ≡ moved move (member c before) (member c after) (elements heap c))
                ((==_iff a b).0 same)
                (o.contents a
                  ∙ rw (marked, o.kept a marked, outside, e) (get_elem?-set_self heap a ys below))
          | inr differs ↦
              let ne = λ (a_b : a ≡ b). absurd (cc (differs, (==_iff a b).1 a_b)) in
              o.contents b ∙ (rw (get_elem?-set_ne heap a b ys ne, differs))
        ];
        finished = λ b zs unmarked now e_b. elim (Bool-cases (a == b)) [
          | inl same ↦
              let a_b = (==_iff a b).0 same in
              let at_a : elements heap' a ≡ some ys =
                o.contents a ∙ rw marked (get_elem?-set_self heap a ys below) in
              subst (All (Visited after))
                (some-injective _ _ (sym at_a ∙ (ap (elements heap') a_b ∙ e_b))) visited
          | inr differs ↦ o.finished b zs (ground (arith, differs, unmarked)) now e_b
        ];
      }

  pub Address-move : (n : ℕ) (v : Value) → Address n v → Address n (move_placeholder move v)
  Address-move n (Value.placeholder j) h = tt
  Address-move n (Value.array a) h = h
  Address-move n Value.undefined h = tt
  Address-move n Value.null h = tt
  Address-move n (Value.boolean b) h = tt
  Address-move n (Value.string s) h = tt
  Address-move n (Value.function f) h = tt
  Address-move n (Value.integer i) h = tt
  Address-move n (Value.float d) h = tt

  All-move :
      (n : ℕ) (xs : List Value)
      → All (Address n) xs
      → All (Address n) (map (move_placeholder move) xs)
  All-move n [] h = tt
  All-move n (x ∷ xs) h = (Address-move n x h.0, All-move n xs h.1)

  moved-Address :
      (n : ℕ) (b₁ b₂ : Bool) (xs : Option (List Value)) (ys : List Value)
      → ((zs : List Value) → xs ≡ some zs → All (Address n) zs)
      → moved move b₁ b₂ xs ≡ some ys
      → All (Address n) ys
  moved-Address n true b₂ xs ys h e = h ys e
  moved-Address n false true none ys h e = absurd (cc e)
  moved-Address n false true (some zs) ys h e =
      rw (some-injective _ _ e) at (All-move n zs (h zs refl))
  moved-Address n false false xs ys h e = h ys e

  pub IsClosed-Once :
      (n : ℕ) {before after : List ℕ} {heap heap' : Arrays}
      → IsClosed n heap
      → Once move before after heap heap'
      → IsClosed n heap'
  IsClosed-Once n {before} {after} {heap} closed o b ys e =
      moved-Address n (member b before) (member b after) (elements heap b) ys (closed b)
        (sym (o.contents b) ∙ e)
