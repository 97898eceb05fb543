-- ===== src/Infrastructure/Random.antt =====
-- include/Infrastructure/Random.h. The engine and the distributions of the C++ standard library, and
-- the arithmetic on doubles, are a parameter; a double is its 64-bit pattern.
use caf.Prelude.{
  ℕ, ◌-◌, ◌≤◌, ◌<◌, Bool, true, false, not, none, some, List, length, get_elem?, if◌then◌else◌,
  ◌==◌, ◌^◌,
}
use caf.Infrastructure.Result.{Result, ok, throw, undefined_behavior}

pub record Platform : Type 1 where
  -- std::default_random_engine.
  pub Engine : Type 0
  -- std::uniform_int_distribution over size_t, and over int32_t by patterns: a number of [min, max].
  pub uniform_int : ℕ → ℕ → Engine → ℕ × Engine
  pub uniform_int_range :
      (min max : ℕ) (e : Engine)
      → min ≤ max
      → (min ≤ (uniform_int min max e).0) × ((uniform_int min max e).0 ≤ max)
  pub uniform_int32 : ℕ → ℕ → Engine → ℕ × Engine
  pub uniform_int32_pattern : (min max : ℕ) (e : Engine) → (uniform_int32 min max e).0 < 2 ^ 32
  -- std::uniform_real_distribution.
  pub uniform_real : ℕ → ℕ → Engine → ℕ × Engine
  pub less_double : ℕ → ℕ → Bool
  pub add_double : ℕ → ℕ → ℕ

-- The patterns of 0.0 and 1.0.
abbrev pub double_zero : ℕ
double_zero = 0

abbrev pub double_one : ℕ
double_one = 0x3ff0_0000_0000_0000

module _ (platform : Platform) where
  open platform use {Engine, uniform_int, uniform_real, less_double}

  unfoldable pub next : ℕ → ℕ → Engine → ℕ × Engine
  next min max e = uniform_int min max e

  -- `p <= 0` and `1 <= p` are the negations of `0 < p` and `p < 1` where `p` is a number.
  unfoldable pub with_probability : ℕ → Engine → Bool × Engine
  with_probability p e =
      if not (less_double double_zero p)
      then (false, e)
      else (if not (less_double p double_one)
          then (true, e)
          else (let (d, e') = uniform_real double_zero double_one e in (less_double d p, e')))

  -- An index of a container with `n` elements; with none the C++ code has no meaning.
  unfoldable pub index : ℕ → Engine → Result (ℕ × Engine)
  unfolding next
  index n e = if n == 0 then throw undefined_behavior else ok (next 0 (n - 1) e)

  unfoldable pub select : {A : Type 0} → List A → Engine → Result (A × Engine)
  unfolding index
  select xs e = elim (index (length xs) e) [
    | ok (i, e') ↦ elim (get_elem? xs i) [ none ↦ throw undefined_behavior | some x ↦ ok (x, e') ]
    | throw err ↦ throw err
    | Result.out_of_fuel ↦ Result.out_of_fuel
  ]
