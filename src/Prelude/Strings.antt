-- ===== src/Prelude/Strings.antt =====
-- Functions of Go's packages `strings`, `path` and `unicode/utf8` on strings as bytes.
use Prim.Native.Nat.{ℕ, zero, suc, ◌+◌, ◌-◌}
use mathlib.Core.Bool.{Bool, true, false, ◌&&◌, ◌||◌}
use mathlib.Core.Option.{Option, none, some}
use mathlib.Core.List.{List, [], ◌∷◌, ◌++◌}
use ssh_forward.Prelude.Tests.{Str, str_eq, nat_eq, ◌==◌, leb, if◌then◌else◌}
use ssh_forward.Prelude.Text.{Pending, complete, advance, rune, longer, bad}

unfoldable pub has_prefix : Str → Str → Bool
has_prefix s [] = true
has_prefix [] (p ∷ ps) = false
has_prefix (c ∷ s) (p ∷ ps) = c == p && has_prefix s ps

-- `strings.TrimPrefix`
unfoldable pub trim_prefix : Str → Str → Str
trim_prefix s [] = s
trim_prefix [] (p ∷ ps) = []
trim_prefix (c ∷ s) (p ∷ ps) =
    let rest = trim_prefix s ps in if has_prefix (c ∷ s) (p ∷ ps) then rest else c ∷ s

-- `strings.Contains`
unfoldable pub contains_text : Str → Str → Bool
unfolding has_prefix
contains_text [] part = part == []
contains_text (c ∷ s) part = has_prefix (c ∷ s) part || contains_text s part

-- `strings.Split` by one byte.
unfoldable pub split_at : ℕ → Str → List Str
split_at sep [] = [] ∷ []
split_at sep (c ∷ s) = elim (split_at sep s) [
  | [] ↦ (c ∷ []) ∷ []
  | first ∷ rest ↦ if c == sep then [] ∷ first ∷ rest else (c ∷ first) ∷ rest
]

-- `strings.Cut` by one byte.
unfoldable pub cut : ℕ → Str → Option (Str × Str)
cut sep [] = none
cut sep (c ∷ s) =
    let later = cut sep s in
    if c == sep
    then some ([], s)
    else elim later [ none ↦ none | some (before, after) ↦ some (c ∷ before, after) ]

-- `strings.Join`
unfoldable pub join : Str → List Str → Str
join sep [] = []
join sep (s ∷ []) = s
join sep (s ∷ t ∷ rest) = s ++ (sep ++ join sep (t ∷ rest))

-- A text with each letter replaced; `head` gives the first byte of the replacement of the letter that
-- a text starts with, and how many more bytes this letter has.
map_letters : (Str → ℕ × ℕ) → ℕ → Str → Str
map_letters head skip [] = []
map_letters head zero (c ∷ s) = (head (c ∷ s)).0 ∷ map_letters head (head (c ∷ s)).1 s
map_letters head (suc skip) (c ∷ s) = map_letters head skip s

-- A letter beyond ASCII becomes another one, or stays. Those that become ASCII letters are listed; the
-- others are left as they are, and equal no ASCII letter before or after.
lower_letter : Str → ℕ × ℕ
unfolding has_prefix
lower_letter [] = (0, 0)
lower_letter (c ∷ s) =
    if has_prefix (c ∷ s) (0xe2 ∷ 0x84 ∷ 0xaa ∷ [])
    then (b'k', 2)
    else if has_prefix (c ∷ s) (0xc4 ∷ 0xb0 ∷ [])
    then (b'i', 1)
    else (if leb b'A' c && leb c b'Z' then c + 32 else c, 0)

upper_letter : Str → ℕ × ℕ
unfolding has_prefix
upper_letter [] = (0, 0)
upper_letter (c ∷ s) =
    if has_prefix (c ∷ s) (0xc4 ∷ 0xb1 ∷ [])
    then (b'I', 1)
    else if has_prefix (c ∷ s) (0xc5 ∷ 0xbf ∷ [])
    then (b'S', 1)
    else (if leb b'a' c && leb c b'z' then c - 32 else c, 0)

-- `strings.ToLower` and `strings.ToUpper`
unfoldable pub to_lower : Str → Str
unfolding map_letters lower_letter
to_lower = map_letters lower_letter 0

unfoldable pub to_upper : Str → Str
unfolding map_letters upper_letter
to_upper = map_letters upper_letter 0

-- How many bytes the white space that a text starts with has; 0 if it starts with none.
space_length : Str → ℕ
space_length [] = 0
space_length (a ∷ []) = if (leb 9 a && leb a 13) || a == 32 then 1 else 0
space_length (a ∷ b ∷ []) =
    if (leb 9 a && leb a 13) || a == 32
    then 1
    else if a == 0xc2 && (b == 0x85 || b == 0xa0)
    then 2
    else 0
space_length (a ∷ b ∷ c ∷ s) =
    if (leb 9 a && leb a 13) || a == 32
    then 1
    else if a == 0xc2 && (b == 0x85 || b == 0xa0)
    then 2
    else if (a == 0xe1 && b == 0x9a && c == 0x80)
        || (a == 0xe2
            && b == 0x80
            && (leb 0x80 c && leb c 0x8a || c == 0xa8 || c == 0xa9 || c == 0xaf))
        || (a == 0xe2 && b == 0x81 && c == 0x9f)
        || (a == 0xe3 && b == 0x80 && c == 0x80)
    then 3
    else 0

trim_left : ℕ → Str → Str
unfolding space_length
trim_left skip [] = []
trim_left (suc skip) (c ∷ s) = trim_left skip s
trim_left zero (c ∷ s) = elim (space_length (c ∷ s)) [ zero ↦ c ∷ s | suc more ↦ trim_left more s ]

-- The text up to the white space that it ends with.
trim_right : Str → Str
trim_right [] = []
trim_right (c ∷ s) = elim (trim_left 0 (c ∷ s)) [ [] ↦ [] | _ ∷ _ ↦ c ∷ trim_right s ]

-- `strings.TrimSpace`
unfoldable pub trim_space : Str → Str
unfolding trim_left trim_right
trim_space s = trim_right (trim_left 0 s)

-- The bytes of the rune that a text starts with; 0 if it starts with none.
unfoldable pub rune_length : Pending → Str → ℕ
rune_length p [] = 0
rune_length p (b ∷ rest) = elim (advance p b) [
  | rune r ↦ 1
  | longer q ↦ elim (rune_length q rest) [ zero ↦ 0 | suc n ↦ suc (suc n) ]
  | bad ↦ 0
]

-- The loop of `strings.ToValidUTF8`: what is left of a rune, and whether the byte before was invalid.
to_valid_from : Str → ℕ → Bool → Str → Str
unfolding rune_length
to_valid_from replacement left invalid [] = []
to_valid_from replacement (suc left) invalid (c ∷ s) = c ∷ to_valid_from replacement left false s
to_valid_from replacement zero invalid (c ∷ s) = elim (rune_length complete (c ∷ s)) [
  | suc more ↦ c ∷ to_valid_from replacement more false s
  | zero ↦ (if invalid then [] else replacement) ++ to_valid_from replacement 0 true s
]

unfoldable pub to_valid_utf8 : Str → Str → Str
unfolding to_valid_from
to_valid_utf8 s replacement = to_valid_from replacement 0 false s

-- `s[:n]`
unfoldable pub take : ℕ → Str → Str
take zero s = []
take (suc n) [] = []
take (suc n) (c ∷ s) = c ∷ take n s

contains_slash : Str → Bool
contains_slash [] = false
contains_slash (c ∷ s) = c == b'/' || contains_slash s

-- What follows the last slash, or all.
after_slash : Str → Str
unfolding contains_slash
after_slash [] = []
after_slash (c ∷ s) =
    let later = after_slash s in if contains_slash s then later else if c == b'/' then s else c ∷ s

-- The text without the slashes that it ends with.
drop_slashes : Str → Str
drop_slashes [] = []
drop_slashes (c ∷ s) = elim (drop_slashes s) [
  | [] ↦ if c == b'/' then [] else c ∷ []
  | d ∷ rest ↦ c ∷ d ∷ rest
]

-- `path.Base`
unfoldable pub path_base : Str → Str
unfolding after_slash drop_slashes
path_base [] = b'.' ∷ []
path_base (c ∷ s) = elim (after_slash (drop_slashes (c ∷ s))) [
  | [] ↦ b'/' ∷ []
  | d ∷ rest ↦ d ∷ rest
]
