-- ===== src/Prelude/Text.antt =====
-- Strings as bytes: order, UTF-8, and the tests on runes that the program makes.
use Prim.Native.Nat.{ℕ, zero, suc, ◌+◌, ◌-◌, ◌*◌, compare, Ordering}
use mathlib.Core.Path.{◌≡◌, refl}
use mathlib.Core.Bool.{Bool, true, false, ◌&&◌, ◌||◌, not}
use mathlib.Core.Option.{Option, none, some}
use mathlib.Core.List.{List, [], ◌∷◌}
use native.Mathlib.Omega.{arith}
use ssh_forward.Prelude.Tests.{Str, Eq, nat_eq, str_eq, ◌==◌, leb, if◌then◌else◌}
use ssh_forward.Prelude.Lists.{contains}
use ssh_forward.Prelude.Sort.{leq, IsOrder}

-- Go's `<` on strings, as a comparison.
unfoldable pub str_compare : Str → Str → Ordering
str_compare [] [] = Ordering.eq
str_compare [] (y ∷ ys) = Ordering.lt
str_compare (x ∷ xs) [] = Ordering.gt
str_compare (x ∷ xs) (y ∷ ys) = elim (compare x y) [
  | Ordering.lt ↦ Ordering.lt
  | Ordering.eq ↦ str_compare xs ys
  | Ordering.gt ↦ Ordering.gt
]

str_leq_total : (xs ys : Str) → leq str_compare xs ys ≡ false → leq str_compare ys xs ≡ true
unfolding str_compare
str_leq_total [] [] h = refl
str_leq_total [] (y ∷ ys) h = ground arith
str_leq_total (x ∷ xs) [] h = refl
str_leq_total (x ∷ xs) (y ∷ ys) h = ground (arith, str_leq_total xs ys)

str_leq_trans :
    (xs ys zs : Str)
    → leq str_compare xs ys ≡ true
    → leq str_compare ys zs ≡ true
    → leq str_compare xs zs ≡ true
unfolding str_compare
str_leq_trans [] ys [] h k = refl
str_leq_trans [] ys (z ∷ zs) h k = refl
str_leq_trans (x ∷ xs) [] zs h k = ground arith
str_leq_trans (x ∷ xs) (y ∷ ys) [] h k = ground arith
str_leq_trans (x ∷ xs) (y ∷ ys) (z ∷ zs) h k = ground (arith, str_leq_trans xs ys zs)

pub str_compare-IsOrder : IsOrder str_compare
str_compare-IsOrder = record { total = str_leq_total; trans = str_leq_trans }

pub str_leq_antisym :
    (xs ys : Str) → leq str_compare xs ys ≡ true → leq str_compare ys xs ≡ true → xs ≡ ys
unfolding str_compare
str_leq_antisym [] [] h k = refl
str_leq_antisym [] (y ∷ ys) h k = ground arith
str_leq_antisym (x ∷ xs) [] h k = ground arith
str_leq_antisym (x ∷ xs) (y ∷ ys) h k = ground (arith, str_leq_antisym xs ys)

-- `slices.Compact`
module _ {ℓ} {A : Type ℓ} ⦃e : Eq A⦄ where
  unfoldable pub compact : List A → List A
  compact [] = []
  compact (x ∷ []) = x ∷ []
  compact (x ∷ y ∷ ys) = let rest = compact (y ∷ ys) in if x == y then rest else x ∷ rest

  pub contains-compact : (xs : List A) (a : A) → contains (compact xs) a ≡ contains xs a
  unfolding compact contains
  contains-compact [] a = refl
  contains-compact (x ∷ []) a = refl
  contains-compact (x ∷ y ∷ ys) a = ground (arith, contains-compact (y ∷ ys) a)

-- A sequence of bytes that is being decoded: how many bytes of the rune are to come, the range of the
-- next one, and the value so far.
pub data Pending : Type 0 where
  complete : Pending
  partial : ℕ → ℕ → ℕ → ℕ → Pending

abbrev within : ℕ → ℕ → ℕ → Bool
within lo hi b = leb lo b && leb b hi

-- The first byte of a rune: a complete rune, a longer one, or none at all.
pub data Lead : Type 0 where
  rune : ℕ → Lead
  longer : Pending → Lead
  bad : Lead

unfoldable pub lead : ℕ → Lead
lead b =
    if leb b 0x7f
    then rune b
    else if within 0xc2 0xdf b
    then longer (partial 0 0x80 0xbf (b - 0xc0))
    else if b == 0xe0
    then longer (partial 1 0xa0 0xbf 0)
    else if b == 0xed
    then longer (partial 1 0x80 0x9f 0xd)
    else if within 0xe1 0xef b
    then longer (partial 1 0x80 0xbf (b - 0xe0))
    else if b == 0xf0
    then longer (partial 2 0x90 0xbf 0)
    else if within 0xf1 0xf3 b
    then longer (partial 2 0x80 0xbf (b - 0xf0))
    else if b == 0xf4
    then longer (partial 2 0x80 0x8f 4)
    else bad

unfoldable pub continue : ℕ → ℕ → ℕ → ℕ → ℕ → Lead
continue n lo hi acc b =
    if within lo hi b
    then elim n [
      | zero ↦ rune (acc * 64 + (b - 0x80))
      | suc m ↦ longer (partial m 0x80 0xbf (acc * 64 + (b - 0x80)))
    ]
    else bad

unfoldable pub advance : Pending → ℕ → Lead
unfolding lead continue
advance complete b = lead b
advance (partial n lo hi acc) b = continue n lo hi acc b

abbrev prepend : ℕ → Option (List ℕ) → Option (List ℕ)
prepend r none = none
prepend r (some rs) = some (r ∷ rs)

unfoldable pub decode_from : Pending → Str → Option (List ℕ)
unfolding advance
decode_from complete [] = some []
decode_from (partial n lo hi acc) [] = none
decode_from p (b ∷ rest) = elim (advance p b) [
  | rune r ↦ prepend r (decode_from complete rest)
  | longer q ↦ decode_from q rest
  | bad ↦ none
]

-- The runes of a string; `none` where `utf8.ValidString` is false.
unfoldable pub runes : Str → Option (List ℕ)
unfolding decode_from
runes s = decode_from complete s

-- `unicode.IsControl`
unfoldable pub is_control : ℕ → Bool
is_control r = leb r 0x1f || within 0x7f 0x9f r

-- `unicode.IsSpace`
unfoldable pub is_space : ℕ → Bool
is_space r =
    within 9 13 r
    || r == 32
    || r == 0x85
    || r == 0xa0
    || r == 0x1680
    || within 0x2000 0x200a r
    || r == 0x2028
    || r == 0x2029
    || r == 0x202f
    || r == 0x205f
    || r == 0x3000

unfoldable pub any_rune : (ℕ → Bool) → List ℕ → Bool
any_rune test [] = false
any_rune test (r ∷ rs) = test r || any_rune test rs

-- The string is valid UTF-8, and has no rune that is a space or a control character.
unfoldable pub is_plain : Str → Bool
unfolding runes is_control is_space any_rune
is_plain s = elim (runes s) [
  | none ↦ false
  | some rs ↦ not (any_rune (λ r. is_control r || is_space r) rs)
]
