-- ===== src/Fuzzer/RoundTrip/State.antt =====
-- The writer's context and the reader's stay in step, and what was read stays as it is.
use caf.Prelude.{
  ℕ, suc, ◌≤◌, ◌<◌, ◌≡◌, ◌≢◌, sym, ◌∙◌, none, some, List, [], ◌∷◌, ◌++◌, length, ◌⊎◌, get_elem?,
  lookup, insert, arith, ◌==◌, inl, inr, Bool-cases, Option-cases, length-append,
  get_elem?-append_left, get_elem?-append_length, get_elem?_bound, ==_iff,
}
use caf.Fuzzer.Value.{Value, Arrays, elements}
use caf.Fuzzer.Serializer.{SerializationContext, set_next_value, set_next_value_as_return_value}
use caf.Fuzzer.Deserializer.{DeserializationContext}
use caf.Fuzzer.RoundTrip.{Corr, Extends, SameValue, SameValues, SameArray, Sim, Post}

pub Extends-refl : (c : Corr) → Extends c c
Extends-refl c a b h = h

pub Extends-trans : (c c' c'' : Corr) → Extends c c' → Extends c' c'' → Extends c c''
Extends-trans c c' c'' h k a b e = k a b (h a b e)

pub SameValue-Extends :
    (c c' : Corr) → Extends c c' → (v w : Value) → SameValue c v w → SameValue c' v w
SameValue-Extends c c' h (Value.array a) w (b, e, same) = (b, h a b e, same)
SameValue-Extends c c' h _ w same = same

pub SameValues-Extends :
    (c c' : Corr) → Extends c c' → (vs ws : List Value) → SameValues c vs ws → SameValues c' vs ws
SameValues-Extends c c' h [] [] s = s
SameValues-Extends c c' h [] (w ∷ ws) s = s
SameValues-Extends c c' h (v ∷ vs) [] s = s
SameValues-Extends c c' h (v ∷ vs) (w ∷ ws) s =
    (SameValue-Extends c c' h v w s.0, SameValues-Extends c c' h vs ws s.1)

lookup-insert_self : (k v : ℕ) (m : List (ℕ × ℕ)) → lookup k (insert k v m) ≡ some v
lookup-insert_self k v m = ground arith

-- An entry of a map with one more entry is the new one, or an old one under another key.
lookup-insert_cases :
    (k j v : ℕ) (m : List (ℕ × ℕ)) (w : ℕ)
    → lookup j (insert k v m) ≡ some w
    → ((k ≡ j) × (v ≡ w)) ⊎ ((k ≢ j) × (lookup j m ≡ some w))
lookup-insert_cases k j v m w h = elim (Bool-cases (k == j)) [
  | inl e ↦ inl ((==_iff k j).0 e, ground arith)
  | inr e ↦ inr ((λ q. ground arith), ground arith)
]

lookup-insert_ne : (k j v : ℕ) (m : List (ℕ × ℕ)) → k ≢ j → lookup j (insert k v m) ≡ lookup j m
lookup-insert_ne k j v m h = ground arith

module _ (c : Corr) (s : SerializationContext) (d : DeserializationContext) (n : ℕ)
    (sim : Sim c s d n) where
  module _ (a : ℕ) (fresh : lookup a s.value_indexes ≡ none) where
    abbrev pub with_array : DeserializationContext
    with_array = record d { pool = d.pool ++ some (Value.array n) ∷ [] }

    array-entry :
        (a' k : ℕ)
        → lookup a' (set_next_value a s).value_indexes ≡ some k
        → (b : ℕ) × (lookup a' (insert a n c) ≡ some b)
          × (get_elem? with_array.pool k ≡ some (some (Value.array b)))
          × (lookup k d.ret_value_index ≡ none)
    array-entry a' k h = elim (lookup-insert_cases a a' s.index_alloc s.value_indexes k h) [
      | inl (e, e') ↦ (
        n,
        rw e (lookup-insert_self a' n c),
        rw (sym e' ∙ sim.next) (get_elem?-append_length d.pool [] (some (Value.array n))),
        sim.unused k (omega (arith, sim.next)),
      )
      | inr (ne, old) ↦
          let (b, found, stored, free) = sim.arrays a' k old in
          (
            b,
            rw (lookup-insert_ne a a' n c ne) found,
            get_elem?-append_left d.pool _ k (some (Value.array b)) stored,
            free,
          )
    ]

    array-unknown :
        (a' : ℕ)
        → lookup a' (set_next_value a s).value_indexes ≡ none
        → lookup a' (insert a n c) ≡ none
    array-unknown a' h = ground (arith, sim.unknown a')

    array-injective :
        (a₁ a₂ b : ℕ)
        → lookup a₁ (insert a n c) ≡ some b
        → lookup a₂ (insert a n c) ≡ some b
        → a₁ ≡ a₂
    array-injective a₁ a₂ b h k = elim (lookup-insert_cases a a₁ n c b h) [
      | inl (e, e') ↦ elim (lookup-insert_cases a a₂ n c b k) [
        | inl (f, f') ↦ sym e ∙ f
        | inr (ne, old) ↦ absurd (omega (arith, sim.below a₂ b old))
      ]
      | inr (ne, old) ↦ elim (lookup-insert_cases a a₂ n c b k) [
        | inl (f, f') ↦ absurd (omega (arith, sim.below a₁ b old))
        | inr (ne', old') ↦ sim.injective a₁ a₂ b old old'
      ]
    ]

    array-below : (a' b : ℕ) → lookup a' (insert a n c) ≡ some b → b < suc n
    array-below a' b h = ground (arith, sim.below a' b)

    -- A new array takes the next index on both sides.
    pub Sim-set_next_value : Sim (insert a n c) (set_next_value a s) with_array (suc n)
    Sim-set_next_value = record {
      next = omega (arith, sim.next, length-append d.pool (some (Value.array n) ∷ []));
      arrays = array-entry;
      unknown = array-unknown;
      returns = sim.returns;
      unused =
          λ k h. sim.unused k (omega (arith, h, length-append d.pool (some (Value.array n) ∷ [])));
      below = array-below;
      injective = array-injective;
    }

    pub Extends-insert : Extends c (insert a n c)
    Extends-insert a' b h = ground (arith, sim.unknown a fresh)

  module _ (i : ℕ) where
    abbrev pub with_return : DeserializationContext
    with_return = record {
      pool = d.pool ++ none ∷ [];
      ret_value_index = insert (length d.pool) i d.ret_value_index;
    }

    return-entry :
        (a k : ℕ)
        → lookup a s.value_indexes ≡ some k
        → (b : ℕ) × (lookup a c ≡ some b)
          × (get_elem? with_return.pool k ≡ some (some (Value.array b)))
          × (lookup k with_return.ret_value_index ≡ none)
    return-entry a k h =
        let (b, found, stored, free) = sim.arrays a k h in
        let small = get_elem?_bound d.pool k (some (Value.array b)) stored in
        (b, found, get_elem?-append_left d.pool _ k (some (Value.array b)) stored, ground arith)

    return-returns :
        (j k : ℕ)
        → lookup j (set_next_value_as_return_value i s).ret_value_indexes ≡ some k
        → lookup k with_return.ret_value_index ≡ some j
    return-returns j k h = elim (lookup-insert_cases i j s.index_alloc s.ret_value_indexes k h) [
      | inl (e, e') ↦
          let last : length d.pool ≡ k = sym sim.next ∙ e' in
          rw (e, last) (lookup-insert_self k j d.ret_value_index)
      | inr (ne, old) ↦ let back = sim.returns j k old in ground (arith, sim.unused k)
    ]

    -- A return value takes the next index on both sides.
    pub Sim-set_next_value_as_return_value :
        Sim c (set_next_value_as_return_value i s) with_return n
    Sim-set_next_value_as_return_value = record {
      next = omega (arith, sim.next, length-append d.pool (none ∷ []));
      arrays = return-entry;
      unknown = sim.unknown;
      returns = return-returns;
      unused = λ k h. ground (arith, length-append d.pool (none ∷ []), sim.unused k);
      below = sim.below;
      injective = sim.injective;
    }

pub Post-refl :
    (heap heap' : Arrays) (c : Corr) (s : SerializationContext) (d : DeserializationContext)
    → Sim c s d (length heap')
    → Post heap c c s (length heap') d heap'
Post-refl heap heap' c s d sim = record {
  sim = sim;
  extends = Extends-refl c;
  grows = omega arith;
  copied = λ a b h k. absurd (cc);
}

-- Two stretches of reading are one, if what the first one read is left alone by the second.
pub Post-trans :
    (heap heap₁ heap₂ : Arrays) (c c₁ c₂ : Corr) (s₁ s₂ : SerializationContext) (n n₁ : ℕ)
    (d₁ d₂ : DeserializationContext)
    → Post heap c c₁ s₁ n d₁ heap₁
    → Post heap c₁ c₂ s₂ n₁ d₂ heap₂
    → n ≤ n₁
    → ((j : ℕ) (ys : List Value) → n ≤ j → elements heap₁ j ≡ some ys → elements heap₂ j ≡ some ys)
    → Post heap c c₂ s₂ n d₂ heap₂
Post-trans heap heap₁ heap₂ c c₁ c₂ s₁ s₂ n n₁ d₁ d₂ p q le keep = record {
  sim = q.sim;
  extends = Extends-trans c c₁ c₂ p.extends q.extends;
  grows = omega (arith, q.grows);
  copied = copied;
}
  where
    copied :
        (a b : ℕ) → lookup a c₂ ≡ some b → lookup a c ≡ none → (n ≤ b) × SameArray c₂ heap heap₂ a b
    copied a b h k = elim (Option-cases (lookup a c₁)) [
      | inl e ↦ let (le', same) = q.copied a b h e in (omega arith, same)
      | inr (b', e) ↦
          let eq : b' ≡ b = ground (arith, q.extends a b' e) in
          let (le', same) = p.copied a b (rw (← eq) e) k in
          (
            le',
            record {
              from = same.from;
              to = same.to;
              found_from = same.found_from;
              found_to = keep b same.to le' same.found_to;
              same = SameValues-Extends c₁ c₂ q.extends same.from same.to same.same;
            },
          )
    ]
