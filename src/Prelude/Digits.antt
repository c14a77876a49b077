-- ===== src/Prelude/Digits.antt =====
-- Numbers as text, as Go's package `strconv` writes and reads them.
use Prim.Native.Nat.{ℕ, zero, suc, ◌+◌, ◌-◌, ◌*◌, ◌/◌, ◌%◌, ◌≤◌, ◌<◌}
use mathlib.Core.Path.{◌≡◌, refl, ap, ◌∙◌}
use mathlib.Core.Logic.{◌⊎◌, inl, inr}
use mathlib.Core.Bool.{true, false, ◌&&◌}
use mathlib.Core.Option.{Option, none, some}
use mathlib.Core.List.{[], ◌∷◌}
use native.Mathlib.Omega.{arith}
use ssh_forward.Prelude.Tests.{Str, ltb, leb, Bool-cases, if◌then◌else◌}

abbrev digit_char : ℕ → ℕ
digit_char d = if ltb d 10 then d + b'0' else d - 10 + b'a'

-- The value of a digit; a byte that is none has the value 36, which no base reaches.
digit_value : ℕ → ℕ
digit_value c =
    if leb b'0' c && leb c b'9'
    then c - b'0'
    else if leb b'a' c && leb c b'z'
    then c - b'a' + 10
    else if leb b'A' c && leb c b'Z'
    then c - b'A' + 10
    else 36

module _ (base : ℕ) where
  -- The digits of a number, before those of `rest`.
  format_from : ℕ → ℕ → Str → Str
  format_from zero n rest = rest
  format_from (suc fuel) n rest =
      let more = format_from fuel (n / base) (digit_char (n % base) ∷ rest) in
      if ltb n base then digit_char n ∷ rest else more

  -- `strconv.FormatUint`
  unfoldable pub format_uint : ℕ → Str
  unfolding format_from
  format_uint n = format_from (suc n) n []

  parse_from : ℕ → Str → Option ℕ
  unfolding digit_value
  parse_from value [] = some value
  parse_from value (c ∷ rest) =
      let more = parse_from (value * base + digit_value c) rest in
      if ltb (digit_value c) base then more else none

  -- `strconv.ParseUint` with a largest value.
  unfoldable pub parse_uint : ℕ → Str → Option ℕ
  unfolding parse_from
  parse_uint largest [] = none
  parse_uint largest (c ∷ rest) = elim (parse_from 0 (c ∷ rest)) [
    | none ↦ none
    | some value ↦ if leb value largest then some value else none
  ]

digit_value-digit_char : (d : ℕ) → d < 36 → digit_value (digit_char d) ≡ d
unfolding digit_value
digit_value-digit_char d h = ground arith

lt→ltb : (a b : ℕ) → a < b → ltb a b ≡ true
lt→ltb a b h = ground arith

le→leb : (a b : ℕ) → a ≤ b → leb a b ≡ true
le→leb a b h = ground arith

div_mod : (b n : ℕ) → 2 ≤ b → n / b * b + n % b ≡ n
div_mod b n h = grind arith

mod-lt : (b n : ℕ) → 2 ≤ b → n % b < b
mod-lt b n h = grind arith

div-lt : (b n : ℕ) → 2 ≤ b → b ≤ n → n / b < n
div-lt b n h k = grind (arith, div_mod b n h)

Test-cases : (a b : ℕ) → ((ltb a b ≡ true) × (a < b)) ⊎ ((ltb a b ≡ false) × (b ≤ a))
Test-cases a b = elim (Bool-cases (ltb a b)) [
  | inl t ↦ inl (t, ground arith)
  | inr f ↦ inr (f, ground arith)
]

module _ (base : ℕ) (two : 2 ≤ base) (small : base ≤ 36) where
  parse_from-cons :
      (value d : ℕ) (rest : Str)
      → d < base
      → parse_from base value (digit_char d ∷ rest) ≡ parse_from base (value * base + d) rest
  unfolding parse_from
  parse_from-cons value d rest h =
      let e = digit_value-digit_char d (omega arith) in rw (e, lt→ltb d base h) refl

  -- Reading the digits of a number and more is reading more after this number.
  parse_from-format_from :
      (fuel n : ℕ) (rest : Str)
      → n < fuel
      → parse_from base 0 (format_from base fuel n rest) ≡ parse_from base n rest
  unfolding format_from
  parse_from-format_from zero n rest h = absurd (omega arith)
  parse_from-format_from (suc fuel) n rest h = elim (Test-cases n base) [
    | inl (t, k) ↦
        rw t (parse_from-cons 0 n rest k ∙ ap (λ (v : ℕ). parse_from base v rest) (omega arith))
    | inr (f, k) ↦ rw f (
        parse_from-format_from fuel (n / base) (digit_char (n % base) ∷ rest)
          (omega (arith, div-lt base n two k))
        ∙ parse_from-cons (n / base) (n % base) rest (mod-lt base n two)
        ∙ ap (λ (v : ℕ). parse_from base v rest) (div_mod base n two))
  ]

  format_from-ne-nil :
      (fuel n : ℕ) (c : ℕ) (rest : Str)
      → (d : ℕ) × (ds : Str) × (format_from base fuel n (c ∷ rest) ≡ d ∷ ds)
  unfolding format_from
  format_from-ne-nil zero n c rest = (c, rest, refl)
  format_from-ne-nil (suc fuel) n c rest = elim (Bool-cases (ltb n base)) [
    | inl t ↦ (digit_char n, c ∷ rest, rw t refl)
    | inr f ↦ rw f (format_from-ne-nil fuel (n / base) (digit_char (n % base)) (c ∷ rest))
  ]

  format_uint-ne-nil : (n : ℕ) → (d : ℕ) × (ds : Str) × (format_uint base n ≡ d ∷ ds)
  unfolding format_uint format_from
  format_uint-ne-nil n = elim (Bool-cases (ltb n base)) [
    | inl t ↦ (digit_char n, [], rw t refl)
    | inr f ↦ rw f (format_from-ne-nil n (n / base) (digit_char (n % base)) [])
  ]

  parsed : (n : ℕ) → parse_from base 0 (format_uint base n) ≡ some n
  unfolding format_uint parse_from
  parsed n = parse_from-format_from (suc n) n [] (omega arith)

  parse_uint-some :
      (largest n : ℕ) (s : Str)
      → ((d : ℕ) × (ds : Str) × (s ≡ d ∷ ds))
      → parse_from base 0 s ≡ some n
      → n ≤ largest
      → parse_uint base largest s ≡ some n
  unfolding parse_uint
  parse_uint-some largest n [] (d, ds, e) p h = cc
  parse_uint-some largest n (c ∷ s) e p h = ground (arith, p)

  pub parse_uint-format_uint :
      (largest n : ℕ) → n ≤ largest → parse_uint base largest (format_uint base n) ≡ some n
  parse_uint-format_uint largest n h =
      parse_uint-some largest n (format_uint base n) (format_uint-ne-nil n) (parsed n) h
