-- ===== src/Fuzzer/Synthesis/Strings.antt =====
-- EscapeString of src/Fuzzer/JavaScriptSynthesisBuilder.cpp against a reader of the string literals of
-- JavaScript.
use caf.Prelude.{
  ◌≢◌, zero, suc, ltb, ℕ, ◌+◌, ◌-◌, ◌*◌, ◌/◌, ◌%◌, ◌≤◌, ◌<◌, ◌≡◌, refl, ap, ◌∙◌, true, false, ◌||◌,
  ◌&&◌, Option, none, some, List, [], ◌∷◌, ◌++◌, leb, ◌==◌, ==_iff, lt→ltb, if◌then◌else◌,
  Bool-cases, inl, inr, arith, All, append_assoc,
}
use caf.Infrastructure.Result.{
  ok, throw, assertion, Succeeds, returns_ok, Succeeds->>=, Succeeds-ok,
}
use caf.Fuzzer.Synthesis.{
  Library, ℤ, minus, to_hex_digit, escape_printed, escape_other, escape_char, escape_string,
}

-- Where the reader is: at a character, after a backslash, after `x`, and after one digit.
pub data Position : Type 0 where
  plain escaped hex : Position
  hex_digit : ℕ → Position

abbrev pub character : ℕ → Option (List ℕ × List ℕ) → Option (List ℕ × List ℕ)
character c none = none
character c (some (s, rest)) = some (c ∷ s, rest)

abbrev pub from_hex : ℕ → Option ℕ
from_hex c =
    if leb 48 c && leb c 57
    then some (c - 48)
    else (if leb 97 c && leb c 102 then some (c - 87) else none)

-- What a character means after a backslash; those that the fuzzer does not write are left out.
abbrev pub escape_meaning : ℕ → Option ℕ
escape_meaning c =
    if c == 110
    then some 10
    else (if c == 116
        then some 9
        else (if c == 114
            then some 13
            else (if c == 34 || c == 39 || c == 92 then some c else none)))

abbrev pub continue : Option ℕ → (ℕ → Option (List ℕ × List ℕ)) → Option (List ℕ × List ℕ)
continue none next = none
continue (some d) next = next d

-- The string up to its closing quote, and the rest; a line break is not allowed in between.
abbrev pub read_literal : Position → List ℕ → Option (List ℕ × List ℕ)
read_literal position [] = none
read_literal Position.plain (c ∷ cs) =
    if c == 39
    then some ([], cs)
    else (if c == 92
        then read_literal Position.escaped cs
        else (if c == 10 || c == 13 then none else character c (read_literal Position.plain cs)))
read_literal Position.escaped (c ∷ cs) =
    if c == 120
    then read_literal Position.hex cs
    else continue (escape_meaning c) (λ d. character d (read_literal Position.plain cs))
read_literal Position.hex (c ∷ cs) =
    continue (from_hex c) (λ d. read_literal (Position.hex_digit d) cs)
read_literal (Position.hex_digit d) (c ∷ cs) =
    continue (from_hex c) (λ e. character (16 * d + e) (read_literal Position.plain cs))

hex_digit_lem : (n : ℕ) → n < 16 → (d : ℕ) × (to_hex_digit (ℤ.pos n) ≡ ok d) × (from_hex d ≡ some n)
unfolding to_hex_digit
hex_digit_lem n h = rw (lt→ltb n 16 h) (_, refl, ground arith)

-- What is left of a negative number is no digit.
to_hex_digit-minus : (n : ℕ) → n ≢ 0 → to_hex_digit (minus n) ≡ throw assertion
unfolding to_hex_digit
to_hex_digit-minus zero h = absurd (h refl)
to_hex_digit-minus (suc n) h = refl

-- The text of a character is read as that character, whatever follows.
abbrev ReadsAs : ℕ → List ℕ → Type 0
ReadsAs c text =
    (rest : List ℕ)
    → read_literal Position.plain (text ++ rest) ≡ character c (read_literal Position.plain rest)

module _ (library : Library) where
  escape_printed-ReadsAs : (c : ℕ) → 32 ≤ c → ReadsAs c (escape_printed library c)
  escape_printed-ReadsAs c h rest = ground arith

  hex-ReadsAs :
      (c high low : ℕ)
      → from_hex high ≡ some (c / 16)
      → from_hex low ≡ some (c % 16)
      → ReadsAs c (92 ∷ 120 ∷ high ∷ low ∷ [])
  hex-ReadsAs c high low is_high is_low rest =
      let whole : 16 * (c / 16) + c % 16 ≡ c = omega arith in rw (is_high, is_low) (rw whole refl)

  escape_other-ReadsAs : (c : ℕ) → c < 128 → Succeeds (ReadsAs c) (escape_other library c)
  unfolding escape_other
  escape_other-ReadsAs c h = elim (Bool-cases (c == 10)) [
    | inl e ↦ rw (e, escape_other) (returns_ok _ (λ rest. rw ((==_iff c 10).0 e) refl))
    | inr not_line ↦
        rw (not_line, escape_other)
          (elim (Bool-cases (c == 9)) [
            | inl e ↦ rw e (returns_ok _ (λ rest. rw ((==_iff c 9).0 e) refl))
            | inr not_tab ↦ rw not_tab (elim (Bool-cases (c == 13)) [
              | inl e ↦ rw e (returns_ok _ (λ rest. rw ((==_iff c 13).0 e) refl))
              | inr not_return ↦
                  let (high, made_high, is_high) = hex_digit_lem (c / 16) (omega (arith, h)) in
                  let (low, made_low, is_low) = hex_digit_lem (c % 16) (omega arith) in
                  rw (not_return, lt→ltb c 128 h, made_high, made_low)
                    (returns_ok _ (hex-ReadsAs c high low is_high is_low))
            ])
          ])
  ]

  escape_char-ReadsAs :
      (c : ℕ)
      → (library.is_print c ≡ true → 32 ≤ c)
      → c < 128
      → Succeeds (ReadsAs c) (escape_char library c)
  unfolding escape_char
  escape_char-ReadsAs c printed h = elim (Bool-cases (library.is_print c)) [
    | inl p ↦
        rw (p, escape_char)
          (returns_ok (escape_printed library c) (escape_printed-ReadsAs c (printed p)))
    | inr p ↦ rw (p, escape_char) (escape_other-ReadsAs c h)
  ]

  -- In a locale whose printing characters start with the space, a string of ASCII characters is
  -- escaped, and a reader of JavaScript's string literals reads the result, with a quote after it, as
  -- that string, and leaves what follows.
  pub read_literal-escape_string :
      ((c : ℕ) → library.is_print c ≡ true → 32 ≤ c)
      → (s : List ℕ) → All (λ c. c < 128) s
      → Succeeds
          (λ text.
            (rest : List ℕ) → read_literal Position.plain (text ++ 39 ∷ rest) ≡ some (s, rest))
          (escape_string library s)
  unfolding escape_string
  read_literal-escape_string printed [] h = returns_ok [] (λ rest. refl)
  read_literal-escape_string printed (c ∷ s) h =
      Succeeds->>= (ReadsAs c) _ (escape_char-ReadsAs c (printed c) h.0) λ text reads.
        Succeeds->>= _ _ (read_literal-escape_string printed s h.1) λ texts reads_all.
          returns_ok (text ++ texts) (λ rest.
            rw (append_assoc text texts (39 ∷ rest))
              (reads (texts ++ 39 ∷ rest) ∙ ap (character c) (reads_all rest)))

  -- A negative char has a negative quotient or a negative remainder.
  escape_other-throw : (c : ℕ) → 128 ≤ c → c < 256 → escape_other library c ≡ throw assertion
  unfolding escape_other
  escape_other-throw c h below =
      let is_negative : ltb c 128 ≡ false = ground arith in
      let not_line : (c == 10) ≡ false = ground arith in
      let not_tab : (c == 9) ≡ false = ground arith in
      let not_return : (c == 13) ≡ false = ground arith in
      elim (Bool-cases ((256 - c) / 16 == 0)) [
        | inl e ↦
            let no_quotient : (256 - c) / 16 ≡ 0 = (==_iff _ 0).0 e in
            rw
              (
                not_line,
                not_tab,
                not_return,
                is_negative,
                no_quotient,
                escape_other,
                to_hex_digit-minus ((256 - c) % 16) (λ z. omega (arith, z, no_quotient, below)),
              )
              refl
        | inr e ↦
            rw
              (
                not_line,
                not_tab,
                not_return,
                is_negative,
                escape_other,
                to_hex_digit-minus ((256 - c) / 16) (λ z. ground (arith, z, e)),
              )
              refl
      ]

  -- In a locale whose printing characters start with the space, a char that is not ASCII and does not
  -- print, after ASCII characters, makes escaping fail the assertion, whatever comes after it.
  pub escape_string-throw :
      ((c : ℕ) → library.is_print c ≡ true → 32 ≤ c)
      → (before after : List ℕ) (c : ℕ) → All (λ b. b < 128) before
      → 128 ≤ c
      → c < 256
      → library.is_print c ≡ false
      → escape_string library (before ++ c ∷ after) ≡ throw assertion
  unfolding escape_string escape_char
  escape_string-throw printed [] after c all h below p =
      rw (p, escape_string, escape_other-throw c h below) refl
  escape_string-throw printed (b ∷ before) after c all h below p =
      let (text, e, _) = Succeeds-ok (ReadsAs b) (escape_char-ReadsAs b (printed b) all.0) in
      rw (e, escape_string, escape_string-throw printed before after c all.1 h below p) refl
