-- ===== src/Fuzzer/Synthesis/Runs.antt =====
-- The builders between the calls of src/Fuzzer/SynthesisBuilder.cpp, and what its definitions of
-- variables make of them.
use caf.Prelude.{
  get_elem?-append_left, get_elem?-append_length, ℕ, zero, suc, ◌-◌, ◌+◌, ◌≤◌, ◌<◌, ◌≡◌, refl, sym,
  subst, true, some, List, [], ◌∷◌, ◌++◌, length, get_elem?, All, All-append, All-imp,
  length-append, arith,
}
use caf.Infrastructure.Result.{
  Result, ok, Succeeds, returns_ok, Succeeds->>=, Succeeds-imp, >>=-eq-ok,
}
use caf.Basic.CafStore
use caf.Basic.CafStore.{CafStore, Function}
use caf.Fuzzer.Value.{Value}
use caf.Fuzzer.Mutator.Fixer.{member}
use caf.Fuzzer.Synthesis.{Library, Statement, statement_text, literal}
use caf.Fuzzer.Synthesis.Builder.{
  Object, Memory, SynthesisBuilder, write, write_variable_def, get_next_variable_name,
  create_variable, set_last_synthesised_value,
}
use caf.Fuzzer.Synthesis.Program.{Program, Step, Required, ValueRequired}
use caf.Fuzzer.Synthesis.Writes.{
  visited, Written, Written-trans, write-Written, require_for-Written,
}

-- A value that WriteLiteralValue can write.
abbrev pub HasLiteral : Library → CafStore → Value → Type 0
HasLiteral library store v = (text : List ℕ) × (literal library store v ≡ ok text)

-- The object at a pointer of the level `l`, with `n` pointers in all: it names calls below its level
-- only, and holds pointers whose level is no higher.
abbrev pub ObjectReady : Library → CafStore → (ℕ → ℕ) → ℕ → ℕ → Object → Type 0
ObjectReady library store level n l (Object.single v) = HasLiteral library store v
ObjectReady library store level n l (Object.array ps) = All (λ q. (q < n) × (level q ≤ l)) ps
ObjectReady library store level n l (Object.placeholder j) = j < l

abbrev pub IsMemory : Library → CafStore → (ℕ → ℕ) → Memory → Type 0
IsMemory library store level memory =
    (p : ℕ) (o : Object)
    → get_elem? memory p ≡ some o
    → ObjectReady library store level (length memory) (level p) o

pub returned : {A : Type 0} (r : Result A) (x : A) → r ≡ ok x → Succeeds (λ y. y ≡ x) r
returned r x e = rw e (returns_ok x refl)

pub get_elem?-last :
    (x : ℕ) (xs : List ℕ) → get_elem? (xs ++ x ∷ []) (length (xs ++ x ∷ []) - 1) ≡ some x
get_elem?-last x xs =
    let last : length xs ≡ length (xs ++ x ∷ []) - 1 = omega (arith, length-append xs (x ∷ [])) in
    subst (λ i. get_elem? (xs ++ x ∷ []) i ≡ some x) last (get_elem?-append_length xs [] x)

module _ (library : Library) (store : CafStore) where
  -- The names that the indexes stand for, one for one.
  abbrev pub Names : List ℕ → List ℕ → List ℕ → Type 0
  Names names [] [] = Unit {0}
  Names names [] (k ∷ ks) = ⊥
  Names names (i ∷ is) [] = ⊥
  Names names (i ∷ is) (k ∷ ks) = (get_elem? names i ≡ some k) × Names names is ks

  -- A builder after `i` calls: each has the variable for its result that its statement defines.
  pub record IsBuilder (i : ℕ) (b : SynthesisBuilder) : Type 0 where
    pub call_variables : List ℕ
    pub program : Program library store b.var_id b.imported call_variables b.output
    pub variables : All (λ k. k < b.var_id) b.variables
    pub indexes : All (λ e. e.1 < length b.variables) b.synthesised_variables
    pub returns : Names b.variables b.func_ret_variables call_variables
    pub count : length call_variables ≡ i

  pub record Next (i : ℕ) (b b' : SynthesisBuilder) : Type 0 where
    pub builder : IsBuilder i b'
    pub later : b.var_id ≤ b'.var_id
    pub kept :
        (p : ℕ)
        → member p (visited b.synthesised_variables) ≡ true
        → member p (visited b'.synthesised_variables) ≡ true

  pub Next-refl : (i : ℕ) (b : SynthesisBuilder) → IsBuilder i b → Next i b b
  Next-refl i b h = record { builder = h; later = omega arith; kept = λ p m. m }

  pub Next-trans :
      (i : ℕ) {b b' b'' : SynthesisBuilder} → Next i b b' → Next i b' b'' → Next i b b''
  Next-trans i n n' = record {
    builder = n'.builder;
    later = omega (arith, n.later, n'.later);
    kept = λ p m. n'.kept p (n.kept p m);
  }

  -- A statement that defines nothing.
  pub Written-Next :
      (i : ℕ) {b b' : SynthesisBuilder}
      → (h : IsBuilder i b) → Written library store b.var_id h.call_variables b b'
      → Next i b b'
  Written-Next i {b} {b'} h w = record {
    builder = record {
      call_variables = h.call_variables;
      program = rw w.var_id w.program;
      variables = rw (w.var_id, w.variables) h.variables;
      indexes = rw (w.synthesised, w.variables) h.indexes;
      returns = rw (w.returns, w.variables) h.returns;
      count = h.count;
    };
    later = omega (arith, w.var_id);
    kept = λ p m. rw w.synthesised m;
  }

  -- The builder with the next variable, which the value at `p` gets.
  abbrev pub with_variable : ℕ → SynthesisBuilder → SynthesisBuilder
  with_variable p b =
      let (k, b₁) = get_next_variable_name b in set_last_synthesised_value p (create_variable k b₁)

  pub extended_variables :
      (n : ℕ) (ks : List ℕ) → All (λ k. k < n) ks → All (λ k. k < n + 1) (ks ++ n ∷ [])
  extended_variables n ks h =
      All-append (λ k. k < n + 1) ks (n ∷ [])
        (All-imp (λ k. k < n) _ (λ k lt. omega (arith, lt)) ks h) (omega arith, tt)

  pub grown : (x : ℕ) (names is ks : List ℕ) → Names names is ks → Names (names ++ x ∷ []) is ks
  grown x names [] [] h = tt
  grown x names [] (k ∷ ks) h = absurd h
  grown x names (i ∷ is) [] h = absurd h
  grown x names (i ∷ is) (k ∷ ks) (at_i, h) =
      (get_elem?-append_left names (x ∷ []) i k at_i, grown x names is ks h)

  pub Names-snoc :
      (names : List ℕ) (i k : ℕ) (is ks : List ℕ)
      → Names names is ks
      → get_elem? names i ≡ some k
      → Names names (is ++ i ∷ []) (ks ++ k ∷ [])
  Names-snoc names i k [] [] h at_i = (at_i, tt)
  Names-snoc names i k [] (k' ∷ ks) h at_i = absurd h
  Names-snoc names i k (i' ∷ is) [] h at_i = absurd h
  Names-snoc names i k (i' ∷ is) (k' ∷ ks) (at_i', h) at_i =
      (at_i', Names-snoc names i k is ks h at_i)

  -- The name that the index at `j` stands for.
  pub Names-at :
      (names is ks : List ℕ) (j : ℕ)
      → Names names is ks
      → j < length ks
      → (i : ℕ) × (k : ℕ) × (get_elem? is j ≡ some i) × (get_elem? names i ≡ some k)
  Names-at names [] [] j h lt = absurd (omega (arith, lt))
  Names-at names [] (k ∷ ks) j h lt = absurd h
  Names-at names (i ∷ is) [] j h lt = absurd h
  Names-at names (i ∷ is) (k ∷ ks) zero h lt = (i, k, refl, h.0)
  Names-at names (i ∷ is) (k ∷ ks) (suc j) h lt = Names-at names is ks j h.1 (omega (arith, lt))

  pub grown_indexes :
      (n : ℕ) (ks : List ℕ) (m : List (ℕ × ℕ))
      → All (λ e. e.1 < length ks) m
      → All (λ e. e.1 < length (ks ++ n ∷ [])) m
  grown_indexes n ks m h =
      All-imp (λ e. e.1 < length ks) _ (λ e lt. omega (arith, lt, length-append ks (n ∷ []))) m h

  -- The statement that defines the variable comes after it is made.
  pub defined-Next :
      (i p : ℕ) {b b' : SynthesisBuilder}
      → (h : IsBuilder i b)
      → Written library store (b.var_id + 1) h.call_variables (with_variable p b) b'
      → Next i b b'
  unfolding get_next_variable_name create_variable set_last_synthesised_value
  defined-Next i p {b} {b'} h w =
      let longer = length-append b.variables (b.var_id ∷ []) in
      record {
        builder = record {
          call_variables = h.call_variables;
          program = rw w.var_id w.program;
          variables =
              rw (w.var_id, w.variables) (extended_variables b.var_id b.variables h.variables);
          indexes =
              subst (λ m. All (λ e. e.1 < length b'.variables) m) (sym w.synthesised)
                (subst (λ ks. All (λ e. e.1 < length ks) (with_variable p b).synthesised_variables)
                  (sym w.variables)
                  (
                    omega (arith, longer),
                    grown_indexes b.var_id b.variables b.synthesised_variables h.indexes,
                  ));
          returns =
              rw (w.returns, w.variables)
                (grown b.var_id b.variables b.func_ret_variables h.call_variables h.returns);
          count = h.count;
        };
        later = omega (arith, w.var_id);
        kept = λ q m. rw w.synthesised (ground (arith, m));
      }

  literal_function :
      (f : ℕ)
      → HasLiteral library store (Value.function f)
      → (function : Function) × (CafStore.get_function f store ≡ ok function)
  unfolding literal
  literal_function f (text, e) =
      let (function, found, _) = >>=-eq-ok (CafStore.get_function f store) _ e in (function, found)

  definition_text :
      (k : ℕ) (v : Value)
      → HasLiteral library store v
      → (text : List ℕ) × (statement_text library store (Statement.variable_def k v) ≡ ok text)
  unfolding statement_text
  definition_text k v (text, e) = rw e (_, refl)

  plain-Written :
      (v : Value) (b : SynthesisBuilder) (n : ℕ) (ks : List ℕ)
      → Program library store n b.imported ks b.output
      → HasLiteral library store v
      → ValueRequired library store b.imported v
      → Succeeds
          (Written library store (n + 1) ks b)
          (write library store (Statement.variable_def n v) b)
  plain-Written v b n ks program h required =
      let (text, e) = definition_text n v h in
      write-Written library store (Statement.variable_def n v) b n (n + 1) ks ks text e program
        (Step.defines_value n b.imported ks v required)

  function-Written :
      (f : ℕ) (b : SynthesisBuilder) (n : ℕ) (ks : List ℕ)
      → Program library store n b.imported ks b.output
      → HasLiteral library store (Value.function f)
      → Succeeds
          (Written library store (n + 1) ks b)
          (write_variable_def library store n (Value.function f) b)
  unfolding write_variable_def
  function-Written f b n ks program h =
      let (function, found) = literal_function f h in
      Succeeds->>= _ _ (returned (CafStore.get_function f store) function found) λ fn same.
        Succeeds->>= _ _ (require_for-Written library store fn.name b n ks program)
          λ b' (w, required).
            Succeeds-imp _ _
              (plain-Written (Value.function f) b' n ks w.program h (λ function' found'.
                let as_found : fn ≡ function' = cc (found, found', same) in
                subst (λ (x : Function). Required library store b'.imported x.name) as_found
                  required))
              (λ b'' w'. Written-trans library store w w')

  pub write_variable_def-Written :
      (v : Value) (b : SynthesisBuilder) (n : ℕ) (ks : List ℕ)
      → Program library store n b.imported ks b.output
      → HasLiteral library store v
      → Succeeds (Written library store (n + 1) ks b) (write_variable_def library store n v b)
  unfolding write_variable_def
  write_variable_def-Written (Value.function f) b n ks program h =
      function-Written f b n ks program h
  write_variable_def-Written Value.undefined b n ks program h =
      plain-Written Value.undefined b n ks program h tt
  write_variable_def-Written Value.null b n ks program h =
      plain-Written Value.null b n ks program h tt
  write_variable_def-Written (Value.boolean c) b n ks program h =
      plain-Written (Value.boolean c) b n ks program h tt
  write_variable_def-Written (Value.string s) b n ks program h =
      plain-Written (Value.string s) b n ks program h tt
  write_variable_def-Written (Value.integer k) b n ks program h =
      plain-Written (Value.integer k) b n ks program h tt
  write_variable_def-Written (Value.float d) b n ks program h =
      plain-Written (Value.float d) b n ks program h tt
  write_variable_def-Written (Value.array a) b n ks program h =
      plain-Written (Value.array a) b n ks program h tt
  write_variable_def-Written (Value.placeholder j) b n ks program h =
      plain-Written (Value.placeholder j) b n ks program h tt
