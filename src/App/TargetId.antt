-- ===== src/App/TargetId.antt =====
-- The identifier of a target: `targetID` of `cli/internal/app/host_target.go`. The sum that SHA-256 makes
-- of a target's JSON is a parameter.
pub mod Bounds
use ssh_forward.App.Targets.{HostTarget}
use ssh_forward.Core.Types.{direction_eq, key_eq, state_eq, target_eq}
use ssh_forward.Prelude.{
  Bool, Option, Str, [], bool_eq, complete, if◌then◌else◌, leb, length, ltb, nat_eq, none,
  rune_length, some, str_eq, suc, take, zero, ℕ, ◌%◌, ◌&&◌, ◌++◌, ◌+◌, ◌-◌, ◌/◌, ◌==◌, ◌∷◌,
}

-- `s[n:]`
unfoldable pub suffix : ℕ → Str → Str
suffix zero s = s
suffix (suc n) [] = []
suffix (suc n) (c ∷ s) = suffix n s

-- Whether the last bytes of a text, so many, are one rune.
ends_by : ℕ → Str → Bool
unfolding suffix rune_length
ends_by n s = leb n (length s) && rune_length complete (suffix (length s - n) s) == n

-- The size of `utf8.DecodeLastRuneInString`.
unfoldable pub last_rune_size : Str → ℕ
unfolding ends_by
last_rune_size [] = 0
last_rune_size (c ∷ s) =
    if ends_by 2 (c ∷ s)
    then 2
    else if ends_by 3 (c ∷ s)
    then 3
    else if ends_by 4 (c ∷ s)
    then 4
    else 1

abbrev pub max_prefix : ℕ
max_prefix = 220

-- The loop of `targetID`, with a bound on its passes; `none` where they are not enough.
unfoldable pub shorten : ℕ → Str → Option Str
unfolding last_rune_size
shorten zero prefix = none
shorten (suc passes) prefix =
    let shorter = shorten passes (take (length prefix - last_rune_size prefix) prefix) in
    if ltb max_prefix (length prefix) then shorter else some prefix

hex_digit : ℕ → ℕ
hex_digit n = if ltb n 10 then b'0' + n else b'a' + (n - 10)

-- `%x` of bytes
unfoldable pub hex : Str → Str
unfolding hex_digit
hex [] = []
hex (c ∷ s) = hex_digit (c / 16 % 16) ∷ hex_digit (c % 16) ∷ hex s

module _ (sum : HostTarget → Str) where
  unfoldable pub target_id : HostTarget → Option Str
  unfolding shorten hex
  target_id t =
      if length t.arguments == 0
      then some t.target
      else elim (shorten (suc (length t.target)) t.target) [
        | none ↦ none
        | some prefix ↦ some (prefix ++ b'-' ∷ hex (take 6 (sum t)))
      ]
