-- ===== src/Fuzzer/Synthesis/Constants.antt =====
-- The variables that SynthesisConstant of src/Fuzzer/SynthesisBuilder.cpp returns.
use caf.Prelude.{
  ℕ, zero, suc, ◌+◌, ◌≤◌, ◌<◌, ◌≡◌, refl, false, List, [], ◌∷◌, length, lookup, All, All-imp,
  All-get_elem?, Option-cases, inl, inr, arith, get_elem?_total,
}
use caf.Infrastructure.Result.{Result, Succeeds, returns_ok, Succeeds->>=, Succeeds-imp}
use caf.Basic.CafStore.{CafStore}
use caf.Fuzzer.Value.{Value}
use caf.Fuzzer.Mutator.Fixer.{member}
use caf.Fuzzer.Mutator.Fixer.Once.{free_below, free_below_mono, free_below-cons_lt}
use caf.Fuzzer.Synthesis.{Library, Statement, statement_text, literal}
use caf.Fuzzer.Synthesis.Builder.{
  Object, Memory, SynthesisBuilder, write, get_next_variable_name, create_variable,
  set_last_synthesised_value, get_ret_value_variable, push_elements, define_object,
  synthesis_constant,
}
use caf.Fuzzer.Synthesis.Program.{Step}
use caf.Fuzzer.Synthesis.Writes.{visited, visited-none, lookup-All, write-Written}
use caf.Fuzzer.Synthesis.Runs.{
  HasLiteral, ObjectReady, IsMemory, IsBuilder, Next, Next-refl, Next-trans, Written-Next,
  with_variable, Names-at, defined-Next, write_variable_def-Written,
}

module _ (library : Library) (store : CafStore) (level : ℕ → ℕ) (memory : Memory)
    (ready : IsMemory library store level memory) (i : ℕ) where
  abbrev pub Reached : ℕ → Type 0
  Reached p = (p < length memory) × (level p ≤ i)

  abbrev pub Made : SynthesisBuilder → ℕ × SynthesisBuilder → Type 0
  Made b (k, b') = (k < b'.var_id) × Next library store i b b'

  -- What `constant` promises where fewer than `u` objects are left.
  abbrev pub Gives : ℕ → (ℕ → SynthesisBuilder → Result (ℕ × SynthesisBuilder)) → Type 0
  Gives u constant =
      (p : ℕ) (b : SynthesisBuilder)
      → IsBuilder library store i b
      → Reached p
      → free_below (length memory) (visited b.synthesised_variables) < u
      → Succeeds (Made b) (constant p b)

  pub fewer-Next :
      (u : ℕ) {b b' : SynthesisBuilder}
      → Next library store i b b'
      → free_below (length memory) (visited b.synthesised_variables) < u
      → free_below (length memory) (visited b'.synthesised_variables) < u
  fewer-Next u {b} {b'} n fewer = omega (
    arith,
    free_below_mono (length memory) (visited b.synthesised_variables)
        (visited b'.synthesised_variables) n.kept,
    fewer,
  )

  push-Next :
      (k e : ℕ) (b : SynthesisBuilder)
      → IsBuilder library store i b
      → k < b.var_id
      → e < b.var_id
      → Succeeds (Next library store i b) (write library store (Statement.array_push k e) b)
  unfolding statement_text
  push-Next k e b h k_lt e_lt =
      Succeeds-imp _ _
        (write-Written library store (Statement.array_push k e) b b.var_id b.var_id h.call_variables
          h.call_variables _ refl h.program
          (Step.pushes b.var_id k e b.imported h.call_variables k_lt e_lt))
        (λ b' w. Written-Next library store i h w)

  push_elements-Next :
      (u : ℕ) (constant : ℕ → SynthesisBuilder → Result (ℕ × SynthesisBuilder))
      → Gives u constant
      → (k : ℕ) (ps : List ℕ) (b : SynthesisBuilder) → IsBuilder library store i b
      → k < b.var_id
      → All Reached ps
      → free_below (length memory) (visited b.synthesised_variables) < u
      → Succeeds (Next library store i b) (push_elements library store constant k ps b)
  unfolding push_elements
  push_elements-Next u constant gives k [] b h k_lt all fewer =
      returns_ok b (Next-refl library store i b h)
  push_elements-Next u constant gives k (p ∷ ps) b h k_lt all fewer =
      Succeeds->>= _ (Next library store i b) (gives p b h all.0 fewer) λ (e, b₁) (e_lt, n₁).
        Succeeds->>= _ (Next library store i b)
          (push-Next k e b₁ n₁.builder (omega (arith, k_lt, n₁.later)) e_lt)
          λ b₂ n₂.
            let n = Next-trans library store i n₁ n₂ in
            Succeeds-imp _ _
              (push_elements-Next u constant gives k ps b₂ n.builder (omega (arith, k_lt, n.later))
                all.1 (fewer-Next u n fewer))
              (λ b₃ m. Next-trans library store i n m)

  placeholder-Made :
      (j : ℕ) (b : SynthesisBuilder)
      → IsBuilder library store i b
      → j < i
      → Succeeds (λ k. k < b.var_id) (get_ret_value_variable j b)
  unfolding get_ret_value_variable
  placeholder-Made j b h below =
      let (v, k, at_j, at_v) =
        Names-at library store b.variables b.func_ret_variables h.call_variables j h.returns
          (omega (arith, below, h.count)) in
      rw (at_j, at_v) (returns_ok k (All-get_elem? _ b.variables v k h.variables at_v))

  array-Made :
      (u : ℕ) (constant : ℕ → SynthesisBuilder → Result (ℕ × SynthesisBuilder))
      → Gives u constant
      → (p : ℕ) (ps : List ℕ) (b : SynthesisBuilder) → IsBuilder library store i b
      → p < length memory
      → member p (visited b.synthesised_variables) ≡ false
      → All Reached ps
      → free_below (length memory) (visited b.synthesised_variables) < suc u
      → Succeeds (Made b) (define_object library store constant p (Object.array ps) b)
  unfolding define_object statement_text get_next_variable_name create_variable
      set_last_synthesised_value
  array-Made u constant gives p ps b h below new all fewer =
      let k = b.var_id in
      let b₂ = with_variable library store p b in
      Succeeds->>= _ _
        (write-Written library store (Statement.empty_array_variable_def k) b₂ k (k + 1)
          h.call_variables h.call_variables _ refl h.program
          (Step.defines_array k b.imported h.call_variables))
        λ b₃ w.
          let n = defined-Next library store i p h w in
          let now : k < b₃.var_id = omega (arith, w.var_id) in
          let less =
            free_below-cons_lt (length memory) p (visited b.synthesised_variables) below new in
          let marked : free_below (length memory) (visited b₃.synthesised_variables) < u =
            rw w.synthesised (omega (arith, less, fewer)) in
          Succeeds->>= _ _ (push_elements-Next u constant gives k ps b₃ n.builder now all marked)
            λ b₄ m. returns_ok (k, b₄) (omega (arith, now, m.later), Next-trans library store i n m)

  single-Made :
      (constant : ℕ → SynthesisBuilder → Result (ℕ × SynthesisBuilder)) (p : ℕ) (v : Value)
      (b : SynthesisBuilder)
      → IsBuilder library store i b
      → HasLiteral library store v
      → Succeeds (Made b) (define_object library store constant p (Object.single v) b)
  unfolding define_object get_next_variable_name create_variable set_last_synthesised_value
  single-Made constant p v b h literal =
      Succeeds->>= _ _
        (write_variable_def-Written library store v (with_variable library store p b) b.var_id
          h.call_variables h.program literal)
        λ b₃ w.
          let n = defined-Next library store i p h w in
          returns_ok (b.var_id, b₃) (omega (arith, w.var_id), n)

  object-Made :
      (u : ℕ) (constant : ℕ → SynthesisBuilder → Result (ℕ × SynthesisBuilder))
      → Gives u constant
      → (p : ℕ) (o : Object) (b : SynthesisBuilder) → IsBuilder library store i b
      → Reached p
      → member p (visited b.synthesised_variables) ≡ false
      → ObjectReady library store level (length memory) (level p) o
      → free_below (length memory) (visited b.synthesised_variables) < suc u
      → Succeeds (Made b) (define_object library store constant p o b)
  unfolding define_object
  object-Made u constant gives p (Object.single v) b h reached new ready_o fewer =
      single-Made constant p v b h ready_o
  object-Made u constant gives p (Object.array ps) b h reached new ready_o fewer =
      array-Made u constant gives p ps b h reached.0 new
        (All-imp (λ q. (q < length memory) × (level q ≤ level p)) _
          (λ q (lt, le). (lt, omega (arith, le, reached.1))) ps ready_o)
        fewer
  object-Made u constant gives p (Object.placeholder j) b h reached new ready_o fewer =
      Succeeds->>= _ _ (placeholder-Made j b h (omega (arith, ready_o, reached.1)))
        λ k k_lt. returns_ok (k, b) (k_lt, Next-refl library store i b h)

  pub synthesis_constant-Gives : (f : ℕ) → Gives f (synthesis_constant library store f memory)
  unfolding synthesis_constant
  synthesis_constant-Gives zero p b h reached fewer = absurd (omega arith)
  synthesis_constant-Gives (suc f) p b h reached fewer =
      elim (Option-cases (lookup p b.synthesised_variables)) [
        | inl e ↦
            let (o, at_p) = get_elem?_total memory p reached.0 in
            rw (e, at_p, synthesis_constant)
              (object-Made f (synthesis_constant library store f memory)
                (synthesis_constant-Gives f) p o b h reached
                (visited-none p b.synthesised_variables e) (ready p o at_p) fewer)
        | inr (v, e) ↦
            let v_lt =
              lookup-All (λ j. j < length b.variables) p v b.synthesised_variables e h.indexes in
            let (k, at_v) = get_elem?_total b.variables v v_lt in
            rw (e, at_v, synthesis_constant)
              (returns_ok (k, b)
                (All-get_elem? _ b.variables v k h.variables at_v, Next-refl library store i b h))
      ]
