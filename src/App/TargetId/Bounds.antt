-- ===== src/App/TargetId/Bounds.antt =====
-- The identifier of a target exists and is short enough for a host name.
use ssh_forward.App.Equivalent.{bare}
use ssh_forward.App.TargetId.{hex, last_rune_size, max_prefix, shorten, target_id}
use ssh_forward.App.Targets.{HostTarget}
use ssh_forward.Core.Names.{max_host_alias_length, valid_host_name, valid_host_name-length}
use ssh_forward.Core.Types.{direction_eq, key_eq, state_eq, target_eq}
use ssh_forward.Prelude.{
  Bool-cases, Str, [], arith, bool_eq, inl, inr, length, length-append, ltb, nat_eq, refl, some,
  str_eq, suc, take, true, zero, ℕ, ◌*◌, ◌++◌, ◌-◌, ◌<◌, ◌==◌, ◌∷◌, ◌≡◌, ◌≤◌,
}

length-take : (n : ℕ) (s : Str) → length (take n s) ≤ n
unfolding take
length-take zero s = omega arith
length-take (suc n) [] = omega arith
length-take (suc n) (c ∷ s) = omega (arith, length-take n s)

length-hex : (s : Str) → length (hex s) ≡ 2 * length s
unfolding hex
length-hex [] = refl
length-hex (c ∷ s) = omega (arith, length-hex s)

last_rune_size-positive : (s : Str) → 0 < length s → 0 < last_rune_size s
unfolding last_rune_size
last_rune_size-positive [] h = absurd (omega (arith, h))
last_rune_size-positive (c ∷ s) h = ground arith

shorten_total :
    (passes : ℕ) (prefix : Str)
    → length prefix < passes
    → (short : Str) × (shorten passes prefix ≡ some short) × (length short ≤ max_prefix)
unfolding shorten
shorten_total zero prefix h = absurd (omega (arith, h))
shorten_total (suc passes) prefix h = elim (Bool-cases (ltb max_prefix (length prefix))) [
  | inr fits ↦ (prefix, rw fits refl, ground arith)
  | inl long ↦
      let positive = last_rune_size-positive prefix (ground arith) in
      let below : max_prefix < length prefix = ground arith in
      let cut = length-take (length prefix - last_rune_size prefix) prefix in
      rw long (
        shorten_total passes (take (length prefix - last_rune_size prefix) prefix)
          (omega (arith, h, cut, positive, below)))
]

-- Whatever the sum, targetID ends for a target whose name is a host name, by at most as many passes of
-- its loop as the name has bytes and one more, and the identifier has at most 255 bytes, as a host
-- name must.
pub target_id_total :
    (sum : HostTarget → Str) (t : HostTarget)
    → valid_host_name t.target ≡ true
    → (id : Str) × (target_id sum t ≡ some id) × (length id ≤ max_host_alias_length)
unfolding target_id
target_id_total sum t v = elim (Bool-cases (length t.arguments == 0)) [
  | inl bare ↦ (t.target, rw bare refl, valid_host_name-length t.target v)
  | inr full ↦
      let (short, e, bound) = shorten_total (suc (length t.target)) t.target (omega arith) in
      let digits = hex (take 6 (sum t)) in
      (
        short ++ b'-' ∷ digits,
        rw (full, e) refl,
        omega (
          arith,
          bound,
          length-append short (b'-' ∷ digits),
          length-hex (take 6 (sum t)),
          length-take 6 (sum t),
        ),
      )
]
