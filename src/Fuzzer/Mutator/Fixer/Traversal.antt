-- ===== src/Fuzzer/Mutator/Fixer/Traversal.antt =====
-- The traversal of arrays by PlaceholderFixer in src/Fuzzer/TestCaseMutator.cpp.
use caf.Prelude.{
  set-same, set-set, ℕ, zero, suc, ◌+◌, ◌<◌, ◌≡◌, refl, sym, ap, subst, ◌∙◌, true, false, some,
  List, [], ◌∷◌, ◌++◌, length, set, map, Bool-cases, inl, inr, arith, All-get_elem?, length-append,
  get_elem?-set_self, get_elem?_bound, get_elem?_total, get_elem?-append_length, append_assoc,
}
use caf.Infrastructure.Result.{ok, Succeeds, returns_ok, Succeeds->>=, Succeeds-imp}
use caf.Fuzzer.Value.{Value, elements}
use caf.Fuzzer.ObjectPool.{get_placeholder_value}
use caf.Fuzzer.ObjectPool.Leaves.{placed-IsLeafPool}
use caf.Fuzzer.ObjectPool.Tables.{get_placeholder_value-placed, placed-Returns}
use caf.Fuzzer.Generation.{try_pool, GenState}
use caf.Fuzzer.Mutator.Fixer.{Fix, member, fix_elements, fix_array, fix_value}
use caf.Fuzzer.Mutator.Fixer.Once.{
  Once, move_placeholder, Address, free_below, free_below_mono, free_below-cons_lt, Visited,
  Visited-mono,
}
use caf.Fuzzer.Mutator.Fixer.Steps.{Once-mark, Once-refl, Once-trans, Once-set, Address-move}
use caf.Fuzzer.Mutator.Fixer.Ready.{
  get_element-ok, set_element-ok, Address-All, IsReady, MovesValue, MovesRest, Fixes, IsReady-Moves,
  with_heap, IsReady-write,
}

module _ {S : Type 0} (move : ℕ → ℕ) (n : ℕ) where
  -- The loop over an array that counts as gone through: what it leaves is what it would leave had
  -- the rest of the array been moved at once.
  elements-Moves :
      (u : ℕ) (fix : Fix S)
      → Fixes move n u fix
      → (a : ℕ) (rest done : List Value) (fixed : List ℕ) (i : ℕ) (g : GenState S)
      → IsReady move n g
      → i ≡ length done
      → elements g.objects.array_values a ≡ some (done ++ rest)
      → member a fixed ≡ true
      → free_below n fixed < u
      → Succeeds
          (MovesRest move n rest fixed
            (set g.objects.array_values a (done ++ map (move_placeholder move) rest)))
          (fix_elements fix a i (length rest) fixed g)
  unfolding fix_elements
  elements-Moves u fix fixes a [] done fixed i g r at_i e inside fewer =
      let whole : set g.objects.array_values a (done ++ []) ≡ g.objects.array_values =
        set-same g.objects.array_values a (done ++ []) e in
      returns_ok _ (
        tt,
        record {
          once =
              subst (λ h. Once move fixed fixed h g.objects.array_values) (sym whole)
                (Once-refl move fixed g.objects.array_values);
          sound = r.sound;
        },
      )
  elements-Moves u fix fixes a (v ∷ rest) done fixed i g r at_i e inside fewer =
      let heap = g.objects.array_values in
      let below : a < length heap = get_elem?_bound heap a _ e in
      let address : Address n v =
        All-get_elem? (Address n) (done ++ v ∷ rest) (length done) v (r.closed a _ e)
          (get_elem?-append_length done rest v) in
      rw (get_element-ok heap a i done rest v at_i e) (
        Succeeds->>= _ _ (fixes v fixed g r address fewer)
          λ ((w, fixed'), g₁) (w_moved, visited, m).
            let heap₁ = g₁.objects.array_values in
            let e₁ : elements heap₁ a ≡ some (done ++ v ∷ rest) =
              m.once.contents a ∙ (rw inside e) in
            let target = done ++ map (move_placeholder move) (v ∷ rest) in
            rw (set_element-ok heap₁ a i done rest v w at_i e₁) (
              Succeeds-imp _ _
                (elements-Moves u fix fixes a rest (done ++ w ∷ []) fixed' (i + 1)
                  (with_heap g₁ (set heap₁ a (done ++ w ∷ rest)))
                  (IsReady-write move n g₁ a (done ++ w ∷ rest) (IsReady-Moves move n r m) (
                    Address-All n done rest v w (r.closed a _ e)
                      (rw w_moved (Address-move move n v address))))
                  (omega (arith, length-append done (w ∷ []), at_i))
                  (get_elem?-set_self heap₁ a (done ++ w ∷ rest) (get_elem?_bound heap₁ a _ e₁)
                    ∙ ap some (sym (append_assoc done (w ∷ []) rest)))
                  (m.once.kept a inside)
                  (omega (arith, free_below_mono n fixed fixed' m.once.kept, fewer)))
                (λ (after, g') (rest_visited, p). (
                  (
                    subst (Visited after) w_moved (Visited-mono fixed' after w p.once.kept visited),
                    rest_visited,
                  ),
                  record {
                    once =
                        Once-trans move
                          (Once-set move fixed fixed' heap heap₁ a target inside below m.once)
                          (subst (λ h. Once move fixed' after h g'.objects.array_values)
                            (set-set heap₁ a _ _
                              ∙ ap (λ xs. set heap₁ a xs)
                                  (append_assoc done (w ∷ []) (map (move_placeholder move) rest)
                                    ∙ ap (λ x. done ++ x ∷ map (move_placeholder move) rest)
                                        w_moved))
                            p.once);
                    sound = p.sound;
                  },
                ))))

  fix_array-Moves :
      (u : ℕ) (fix : Fix S)
      → Fixes move n u fix
      → (a : ℕ) (fixed : List ℕ) (g : GenState S) → IsReady move n g
      → a < n
      → member a fixed ≡ false
      → free_below n fixed < suc u
      → Succeeds
          (MovesValue move n (Value.array a) fixed g.objects.array_values)
          (fix_array fix a fixed g)
  unfolding fix_array
  fix_array-Moves u fix fixes a fixed g r below outside fewer =
      let heap = g.objects.array_values in
      let (xs, e) = get_elem?_total heap a (omega (arith, below, r.count)) in
      let marked : member a (a ∷ fixed) ≡ true = ground arith in
      rw e (
        Succeeds->>= _ _
          (elements-Moves u fix fixes a xs [] (a ∷ fixed) 0 g r refl e marked
            (omega (arith, free_below-cons_lt n a fixed below outside, fewer)))
          λ (after, g') (visited, m). returns_ok _ (
            refl,
            m.once.kept a marked,
            record {
              once =
                  Once-mark move a fixed after heap g'.objects.array_values xs outside e visited
                    m.once;
              sound = m.sound;
            },
          ))

  unmoved-Moves :
      (v : Value) (fixed : List ℕ) (g : GenState S)
      → IsReady move n g
      → v ≡ move_placeholder move v
      → Visited fixed v
      → Succeeds (MovesValue move n v fixed g.objects.array_values) (ok ((v, fixed), g))
  unmoved-Moves v fixed g r e visited =
      returns_ok _
        (e, visited, record { once = Once-refl move fixed g.objects.array_values; sound = r.sound })

  pub fix_value-Moves :
      (f i : ℕ)
      → Fixes {S = S} move n f (fix_value f (λ call j. try_pool (get_placeholder_value (move j))) i)
  unfolding fix_value
  fix_value-Moves zero i v fixed g r h fewer = absurd (omega arith)
  fix_value-Moves (suc f) i (Value.placeholder j) fixed g r h fewer =
      let p = placed-Returns g.objects r.sound.valid (move j) in
      rw (get_placeholder_value-placed (move j) g.objects) (
        returns_ok _ (
          p.value,
          subst (Visited fixed) (sym p.value) tt,
          record {
            once =
                subst (λ h. Once move fixed fixed g.objects.array_values h) (sym p.arrays)
                  (Once-refl move fixed g.objects.array_values);
            sound = record {
              valid = p.valid;
              leaves = placed-IsLeafPool g.objects r.sound.valid r.sound.leaves (move j);
            };
          },
        ))
  fix_value-Moves (suc f) i (Value.array a) fixed g r h fewer = elim (Bool-cases (member a fixed)) [
    | inl inside ↦ rw (inside, fix_value) (unmoved-Moves (Value.array a) fixed g r refl inside)
    | inr outside ↦
        rw (outside, fix_value)
          (fix_array-Moves f _ (fix_value-Moves f i) a fixed g r h outside fewer)
  ]
  fix_value-Moves (suc f) i Value.undefined fixed g r h fewer =
      unmoved-Moves Value.undefined fixed g r refl tt
  fix_value-Moves (suc f) i Value.null fixed g r h fewer =
      unmoved-Moves Value.null fixed g r refl tt
  fix_value-Moves (suc f) i (Value.boolean b) fixed g r h fewer =
      unmoved-Moves (Value.boolean b) fixed g r refl tt
  fix_value-Moves (suc f) i (Value.string s) fixed g r h fewer =
      unmoved-Moves (Value.string s) fixed g r refl tt
  fix_value-Moves (suc f) i (Value.function k) fixed g r h fewer =
      unmoved-Moves (Value.function k) fixed g r refl tt
  fix_value-Moves (suc f) i (Value.integer k) fixed g r h fewer =
      unmoved-Moves (Value.integer k) fixed g r refl tt
  fix_value-Moves (suc f) i (Value.float d) fixed g r h fewer =
      unmoved-Moves (Value.float d) fixed g r refl tt
