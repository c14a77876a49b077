-- ===== src/App/Equivalent.antt =====
-- One target per destination: `collapseSameHosts` and `preferHost` of
-- `cli/internal/app/host_equivalent.go`.
pub mod Order
pub mod Choice
pub mod Groups
pub mod Collapsed
use ssh_forward.App.Targets.{DiscoveredHost, HostIdentity, HostTarget}
use ssh_forward.Core.Types.{direction_eq, key_eq, state_eq, target_eq}
use ssh_forward.Prelude.{
  Bool, List, Map, Option, Str, [], bool_eq, contains, has, if◌then◌else◌, insert, leq, lookup,
  nat_eq, none, not, some, str_compare, str_eq, value_or, ◌&&◌, ◌++◌, ◌==◌, ◌||◌, ◌∷◌,
}

-- What Go's map of targets returns for a missing name; every name that is looked up so is present.
abbrev pub zero_target : HostTarget
zero_target = record { target = []; arguments = [] }

-- `left < right` on strings
abbrev pub str_less : Str → Str → Bool
str_less left right = not (leq str_compare right left)

-- `!strings.Contains(target, "@")`
abbrev pub bare : HostTarget → Bool
bare t = not (contains t.target b'@')

module _ (explicit : Map Str HostTarget) (aliases : List Str) where
  unfoldable pub is_alias : Str → HostTarget → Bool
  is_alias name t = contains aliases t.target || contains aliases name

  unfoldable pub prefer_host : Str → HostTarget → Str → HostTarget → Bool
  unfolding is_alias
  prefer_host left_name left right_name right =
      if not (is_alias left_name left == is_alias right_name right)
      then is_alias left_name left
      else if not (has left_name explicit == has right_name explicit)
      then has left_name explicit
      else if not (bare left == bare right)
      then bare left
      else str_less left_name right_name

-- The loop over a group, given the test under which a name replaces the winner.
unfoldable pub winner_of : (Str → Str → Bool) → Str → List Str → Str
winner_of beats winner [] = winner
winner_of beats winner (name ∷ rest) =
    winner_of beats (if beats name winner then name else winner) rest

-- `resolve` is what the resolver answers for each name during the loop, and `aliases` are those that
-- `ConfiguredHosts` returned.
module _ (resolve : Str → HostTarget → Option HostIdentity) (cached : Map Str HostIdentity) where
  abbrev pub destination : HostIdentity → Str
  destination identity = identity.user ++ 0x1f ∷ identity.hostname

  unfoldable pub group_key : Str → HostTarget → Str
  group_key name t = elim (resolve name t) [
    | some identity ↦ destination identity
    | none ↦ elim (lookup name cached) [ some identity ↦ destination identity | none ↦ 0 ∷ name ]
  ]

  -- What the loop over the targets adds to `resolved`.
  unfoldable pub resolve_targets :
      Map Str HostTarget → Map Str DiscoveredHost → Map Str DiscoveredHost
  resolve_targets [] resolved = resolved
  resolve_targets ((name, t) ∷ rest) resolved = resolve_targets rest (elim (resolve name t) [
    | none ↦ resolved
    | some identity ↦ insert name (record { host_target = t; identity = some identity }) resolved
  ])

  -- What the same loop adds to `groups`.
  unfoldable pub group_targets : Map Str HostTarget → Map Str (List Str) → Map Str (List Str)
  unfolding group_key
  group_targets [] groups = groups
  group_targets ((name, t) ∷ rest) groups =
      let k = group_key name t in
      group_targets rest (insert k (value_or (lookup k groups) [] ++ name ∷ []) groups)

  module _ (targets explicit : Map Str HostTarget) (aliases : List Str) where
    abbrev pub target_of : Str → HostTarget
    target_of name = value_or (lookup name targets) zero_target

    -- The test under which a name replaces the winner of its group.
    unfoldable pub beats : Map Str DiscoveredHost → Str → Str → Bool
    beats resolved name winner =
        let fresh = has name resolved in
        let winner_fresh = has winner resolved in
        fresh && not winner_fresh
        || fresh == winner_fresh
          && prefer_host explicit aliases name (target_of name) winner (target_of winner)

    -- The loop over the groups; none of these is empty.
    unfoldable pub collapse_groups :
        Map Str DiscoveredHost → Map Str (List Str) → Map Str HostTarget → Map Str HostTarget
    unfolding winner_of beats
    collapse_groups resolved [] collapsed = collapsed
    collapse_groups resolved ((k, []) ∷ rest) collapsed = collapse_groups resolved rest collapsed
    collapse_groups resolved ((k, name ∷ names) ∷ rest) collapsed =
        let winner = winner_of (beats resolved) name names in
        collapse_groups resolved rest (insert winner (target_of winner) collapsed)

    unfoldable pub collapse_same_hosts : Map Str HostTarget × Map Str DiscoveredHost
    unfolding resolve_targets group_targets collapse_groups
    collapse_same_hosts =
        let resolved = resolve_targets targets [] in
        (collapse_groups resolved (group_targets targets []) [], resolved)
