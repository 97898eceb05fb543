-- ===== src/Fuzzer/Mutator/Strings.antt =====
-- How long the strings are that src/Fuzzer/TestCaseMutator.cpp makes.
use caf.Prelude.{
  ◌&&◌, ℕ, ◌+◌, ◌-◌, ◌≤◌, ◌<◌, ◌≡◌, refl, true, false, Option, none, some, List, [], ◌∷◌, length,
  get_elem?, set, insert_idx, erase_idx, arith, All, length-set, length-insert_idx,
  length-erase_idx, All-append, inl, inr, Bool-cases, Bool, ltb, ltb→lt, leb→le, length-append, leb,
  if◌then◌else◌, ◌==◌,
}
use caf.Infrastructure.Result.{Error, Succeeds, returns_ok, Succeeds->>=}
use caf.Infrastructure.Random.{Platform, index, next}
use caf.Fuzzer.Value.{Value}
use caf.Fuzzer.ObjectPool.{get_or_create_string_value}
use caf.Fuzzer.ObjectPool.Contents.{IsValid}
use caf.Fuzzer.ObjectPool.Tables.{get_or_create_string_value-Returns}
use caf.Fuzzer.Generation.{GenState, M, ◌>>=◌, try_draw, lift, from_pool}
use caf.Fuzzer.Generator.{Options, next_size, choose, generate_string_character, character_set}
use caf.Fuzzer.Generator.Runs.{select-Succeeds}
use caf.Fuzzer.Mutator.{
  StringMutator, string_mutators, within, swap_found, apply_string_mutator, choose_mutator,
  mutate_string,
}

-- From each state with a valid pool the run returns a value of which `P` holds, and a valid pool.
abbrev pub Keeping : {S A : Type 0} → (A → Type 0) → M S A → Type 0
Keeping {S = S} P m =
    (g : GenState S) → IsValid g.objects → Succeeds (λ (a, g'). P a × IsValid g'.objects) (m g)

abbrev pub ShortString : ℕ → Value → Type 0
ShortString n v = (t : List ℕ) × (v ≡ Value.string t) × (length t ≤ n)

Keeping->>= :
    {S A B : Type 0} (P : A → Type 0) (Q : B → Type 0) {m : M S A} {f : A → M S B}
    → Keeping P m
    → ((a : A) → P a → Keeping Q (f a))
    → Keeping Q (m >>= f)
Keeping->>= P Q h k g v = Succeeds->>= _ _ (h g v) (λ (a, g') (p, v'). k a p g' v')

length-swap_found :
    (s : List ℕ) (i j : ℕ) (x y : Option ℕ) → length (swap_found s i j x y) ≡ length s
length-swap_found s i j none y = refl
length-swap_found s i j (some a) none = refl
length-swap_found s i j (some a) (some b) =
    omega (arith, length-set s i b, length-set (set s i b) j a)

-- A mutation inside the string.
within-Keeping :
    {S : Type 0} (n : ℕ) (err : Error) (inside : Bool) (t : List ℕ)
    → inside ≡ true
    → length t ≤ n
    → Keeping {S = S} (λ u. length u ≤ n) (lift (within err inside t))
within-Keeping n err inside t e h g v = rw e (returns_ok _ (h, v))

string-Keeping :
    {S : Type 0} (n : ℕ) (t : List ℕ)
    → length t ≤ n
    → Keeping {S = S} (ShortString n) (from_pool (get_or_create_string_value t))
string-Keeping n t h g v =
    let r = get_or_create_string_value-Returns g.objects v t in
    returns_ok _ ((t, r.value, h), r.valid)

module _ (platform : Platform) where
  next_size-Keeping :
      (min max : ℕ) → min ≤ max → Keeping (λ i. (min ≤ i) × (i ≤ max)) (next_size platform min max)
  unfolding next
  next_size-Keeping min max h g v = returns_ok _ (platform.uniform_int_range min max g.engine h, v)

  choose-Keeping :
      {A : Type 0} (P : A → Type 0) (xs : List A)
      → 0 < length xs
      → All P xs
      → Keeping P (choose platform xs)
  choose-Keeping P xs h all g v =
      Succeeds->>= _ _ (select-Succeeds platform P xs g.engine h all)
        (λ (x, e) p. returns_ok _ (p, v))

  index-Keeping : (n : ℕ) → 0 < n → Keeping (λ i. i < n) (try_draw (index platform n))
  unfolding index next
  index-Keeping n h g v =
      let (least, most) = platform.uniform_int_range 0 (n - 1) g.engine (omega arith) in
      let some_left : (n == 0) ≡ false = ground arith in
      rw (some_left, index) (returns_ok _ (omega (arith, most, h), v))

  character-Keeping : Keeping (λ c. Unit {0}) (generate_string_character platform)
  unfolding generate_string_character
  character-Keeping = choose-Keeping _ character_set (omega arith) (omega arith)

  -- The guard under which each mutator is offered.
  abbrev Offered : ℕ → List ℕ → StringMutator → Type 0
  Offered n s StringMutator.insert_character = length s < n
  Offered n s StringMutator.remove_character = 0 < length s
  Offered n s StringMutator.change_character = 0 < length s
  Offered n s StringMutator.exchange_characters = 2 ≤ length s

  apply-Keeping :
      (n : ℕ) (s : List ℕ) (m : StringMutator)
      → length s ≤ n
      → Offered n s m
      → Keeping (ShortString n) (apply_string_mutator platform m s)
  unfolding apply_string_mutator
  apply-Keeping n s StringMutator.insert_character h k =
      Keeping->>= _ _ (next_size-Keeping 0 (length s) (omega arith)) λ pos (least, most).
        Keeping->>= _ _ character-Keeping λ ch t.
          Keeping->>= _ _
            (within-Keeping n Error.out_of_range (leb pos (length s)) (insert_idx s pos ch)
              (ground (arith, most)) (omega (arith, k, length-insert_idx s pos ch most)))
            λ t short. string-Keeping n t short
  apply-Keeping n s StringMutator.remove_character h k =
      Keeping->>= _ _ (index-Keeping (length s) k) λ pos below.
        Keeping->>= _ _
          (within-Keeping n Error.out_of_range (leb pos (length s)) (erase_idx s pos)
            (ground (arith, below)) (omega (arith, h, length-erase_idx s pos below)))
          λ t short. string-Keeping n t short
  apply-Keeping n s StringMutator.change_character h k =
      Keeping->>= _ _ (index-Keeping (length s) k) λ pos below.
        Keeping->>= _ _ character-Keeping λ ch t.
          Keeping->>= _ _
            (within-Keeping n Error.undefined_behavior (ltb pos (length s)) (set s pos ch)
              (ground (arith, below)) (omega (arith, h, length-set s pos ch)))
            λ t short. string-Keeping n t short
  apply-Keeping n s StringMutator.exchange_characters h k =
      Keeping->>= _ _ (next_size-Keeping 0 (length s - 2) (omega arith)) λ pos1 (least, most).
        Keeping->>= _ _ (next_size-Keeping (pos1 + 1) (length s - 1) (omega (arith, most, k)))
          λ pos2 range.
            Keeping->>= _ _
              (within-Keeping n Error.undefined_behavior
                (ltb pos1 (length s) && ltb pos2 (length s))
                (swap_found s pos1 pos2 (get_elem? s pos1) (get_elem? s pos2))
                (ground (arith, range, most, k))
                (omega
                  (arith, h, length-swap_found s pos1 pos2 (get_elem? s pos1) (get_elem? s pos2))))
              λ t short. string-Keeping n t short

  if-Offered :
      (n : ℕ) (s : List ℕ) (b : Bool) (ms : List StringMutator)
      → (b ≡ true → All (Offered n s) ms)
      → All (Offered n s) (if b then ms else [])
  if-Offered n s true ms h = h refl
  if-Offered n s false ms h = tt

  string_mutators-Offered :
      (opt : Options) (s : List ℕ) → All (Offered opt.max_string_length s) (string_mutators opt s)
  string_mutators-Offered opt s =
      let n = opt.max_string_length in
      All-append _ _ _
        (if-Offered n s (ltb (length s) n) (StringMutator.insert_character ∷ [])
          (λ e. (ltb→lt _ _ e, tt)))
        (All-append _ _ _
          (if-Offered n s (ltb 0 (length s))
            (StringMutator.remove_character ∷ StringMutator.change_character ∷ [])
            (λ e. (ltb→lt _ _ e, (ltb→lt _ _ e, tt))))
          (if-Offered n s (leb 2 (length s)) (StringMutator.exchange_characters ∷ [])
            (λ e. (leb→le _ _ e, tt))))

  some_mutator :
      (opt : Options) (s : List ℕ) → 1 ≤ opt.max_string_length → 0 < length (string_mutators opt s)
  some_mutator opt s h = elim (Bool-cases (ltb 0 (length s))) [
    | inl e ↦ rw e (
        omega (
          arith,
          length-append
              (if ltb (length s) opt.max_string_length
                then StringMutator.insert_character ∷ []
                else [])
              (StringMutator.remove_character
                ∷ StringMutator.change_character
                ∷ (if leb 2 (length s) then StringMutator.exchange_characters ∷ [] else [])),
        ))
    | inr e ↦
        let room : ltb (length s) opt.max_string_length ≡ true = ground (arith, e, h) in
        rw room (omega arith)
  ]

  choose_mutator-Keeping :
      (P : StringMutator → Type 0) (ms : List StringMutator)
      → 0 < length ms
      → All P ms
      → Keeping P (choose_mutator platform ms)
  choose_mutator-Keeping P [] h all = absurd (omega arith)
  choose_mutator-Keeping P (m ∷ ms) h all = choose-Keeping P (m ∷ ms) h all

-- Where a character is allowed, mutating a string that is no longer than the options allow returns
-- a string that is no longer than they allow, whatever the engine draws, and a valid pool stays
-- valid: there is always a mutator to choose, and none reaches outside the string.
pub mutate_string-ShortString :
    (platform : Platform) (opt : Options) (s : List ℕ) (g : GenState platform.Engine)
    → 1 ≤ opt.max_string_length
    → length s ≤ opt.max_string_length
    → IsValid g.objects
    → Succeeds
        (λ (v, g'). ShortString opt.max_string_length v × IsValid g'.objects)
        (mutate_string platform opt s g)
unfolding mutate_string
mutate_string-ShortString platform opt s g room short valid =
    Keeping->>= _ (ShortString opt.max_string_length)
      (choose_mutator-Keeping platform _ (string_mutators opt s) (some_mutator platform opt s room)
        (string_mutators-Offered platform opt s))
      (λ m offered. apply-Keeping platform opt.max_string_length s m short offered) g valid
