-- ===== src/Fuzzer/Synthesis/Writes.antt =====
-- How the methods of src/Fuzzer/SynthesisBuilder.cpp that write a statement extend the program.
use caf.Prelude.{
  ℕ, ◌+◌, ◌-◌, ◌≤◌, ◌<◌, ◌≡◌, refl, sym, subst, ap, ◌∙◌, Bool, true, false, Option, none, some,
  List, [], ◌∷◌, ◌++◌, length, get_elem?, lookup, All, All-append, All-imp, All-get_elem?,
  length-append, ◌==◌, Bool-cases, inl, inr, arith, if◌then◌else◌, get_elem?_total,
}
use caf.Infrastructure.Result.{ok, Succeeds, returns_ok, Succeeds-imp}
use caf.Basic.CafStore.{CafStore}
use caf.Fuzzer.Mutator.Fixer.{member}
use caf.Fuzzer.ObjectPool.Contents.{string_eq_refl}
use caf.Fuzzer.Synthesis.{Library, Statement, statement_text}
use caf.Fuzzer.Synthesis.Modules.{module_name, is_in_module, is_native_module}
use caf.Fuzzer.Synthesis.Builder.{SynthesisBuilder, write, write_require_statement, require_for}
use caf.Fuzzer.Synthesis.Program.{Program, Step, Required}

-- The pointers that have a variable.
abbrev pub visited : List (ℕ × ℕ) → List ℕ
visited [] = []
visited ((p, i) ∷ m) = p ∷ visited m

pub visited-none : (p : ℕ) (m : List (ℕ × ℕ)) → lookup p m ≡ none → member p (visited m) ≡ false
visited-none p [] h = refl
visited-none p ((q, i) ∷ m) h = elim (Bool-cases (q == p)) [
  | inl e ↦ absurd (cc (rw e at h))
  | inr e ↦ rw e (visited-none p m (rw e at h))
]

pub lookup-All :
    (P : ℕ → Type 0) (p i : ℕ) (m : List (ℕ × ℕ)) → lookup p m ≡ some i → All (λ e. P (e.1)) m → P i
lookup-All P p i [] h all = absurd (cc h)
lookup-All P p i ((q, j) ∷ m) h all = elim (Bool-cases (q == p)) [
  | inl e ↦ subst P (caf.Prelude.some-injective _ _ (rw e at h)) all.0
  | inr e ↦ lookup-All P p i m (rw e at h) all.1
]

module _ (library : Library) (store : CafStore) where
  -- The program has `n` variables now, and the calls have the variables `ks` for their results; only
  -- the modules have changed besides it.
  pub record Written (n : ℕ) (ks : List ℕ) (b b' : SynthesisBuilder) : Type 0 where
    pub program : Program library store n b'.imported ks b'.output
    pub variables : b'.variables ≡ b.variables
    pub synthesised : b'.synthesised_variables ≡ b.synthesised_variables
    pub returns : b'.func_ret_variables ≡ b.func_ret_variables
    pub var_id : b'.var_id ≡ b.var_id

  pub Written-trans :
      {n n' : ℕ} {ks ks' : List ℕ} {b b' b'' : SynthesisBuilder}
      → Written n ks b b'
      → Written n' ks' b' b''
      → Written n' ks' b b''
  Written-trans w w' = record {
    program = w'.program;
    variables = w'.variables ∙ w.variables;
    synthesised = w'.synthesised ∙ w.synthesised;
    returns = w'.returns ∙ w.returns;
    var_id = w'.var_id ∙ w.var_id;
  }

  pub write-Written :
      (s : Statement) (b : SynthesisBuilder) (n n' : ℕ) (ks ks' text : List ℕ)
      → statement_text library store s ≡ ok text
      → Program library store n b.imported ks b.output
      → Step library store n b.imported ks s n' b.imported ks'
      → Succeeds (Written n' ks' b) (write library store s b)
  unfolding write
  write-Written s b n n' ks ks' text e program step =
      rw (e, write)
        (returns_ok _ (record {
          program =
              Program.extended n n' b.imported b.imported ks ks' b.output text s program step e;
          variables = refl;
          synthesised = refl;
          returns = refl;
          var_id = refl;
        }))

  write_require_statement-Written :
      (m : List ℕ) (b : SynthesisBuilder) (n : ℕ) (ks : List ℕ)
      → Program library store n b.imported ks b.output
      → Succeeds
          (λ b'. Written n ks b b' × (is_native_module m b'.imported ≡ true))
          (write_require_statement library store m b)
  unfolding write_require_statement write statement_text
  write_require_statement-Written m b n ks program =
      elim (Bool-cases (is_native_module m b.imported)) [
        | inl e ↦
            rw (e, write_require_statement)
              (returns_ok b (
                record {
                  program = program;
                  variables = refl;
                  synthesised = refl;
                  returns = refl;
                  var_id = refl;
                },
                e,
              ))
        | inr e ↦
            rw (e, write_require_statement)
              (returns_ok _ (
                record {
                  program =
                      Program.extended n n b.imported (m ∷ b.imported) ks ks b.output _
                        (Statement.require_module m) program (Step.requires n b.imported ks m e)
                        refl;
                  variables = refl;
                  synthesised = refl;
                  returns = refl;
                  var_id = refl;
                },
                rw (string_eq_refl m) refl,
              ))
      ]

  pub require_for-Written :
      (function : List ℕ) (b : SynthesisBuilder) (n : ℕ) (ks : List ℕ)
      → Program library store n b.imported ks b.output
      → Succeeds
          (λ b'. Written n ks b b' × Required library store b'.imported function)
          (require_for library store function b)
  unfolding require_for
  require_for-Written function b n ks program = elim (Bool-cases (is_in_module library function)) [
    | inl e ↦
        rw (e, require_for)
          (Succeeds-imp _ _ (write_require_statement-Written (module_name function) b n ks program)
            (λ b' (w, required). (w, λ h. required)))
    | inr e ↦
        rw (e, require_for)
          (returns_ok b (
            record {
              program = program;
              variables = refl;
              synthesised = refl;
              returns = refl;
              var_id = refl;
            },
            λ h. absurd (cc h),
          ))
  ]
