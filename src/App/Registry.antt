-- ===== src/App/Registry.antt =====
-- The hosts on record: the loops of `mergeDiscovered` and the change of `EditHost` in
-- `cli/internal/app/host_registry.go`.
pub mod Renewed
pub mod Merged
pub mod Edited
use ssh_forward.App.Targets.{DiscoveredHost, HostIdentity, HostTarget, TargetError, validate_target}
use ssh_forward.App.Wire.{Configuration}
use ssh_forward.Core.Names.{valid_host_name}
use ssh_forward.Core.Types.{direction_eq, key_eq, state_eq, target_eq}
use ssh_forward.Prelude.{
  Bool, List, Map, Option, Result, Str, [], bool_eq, err, false, has, if◌then◌else◌, insert,
  is_some, lookup, nat_eq, none, not, ok, some, sort_func, str_compare, str_eq, true, ◌&&◌, ◌++◌,
  ◌==◌, ◌||◌, ◌∷◌,
}

-- The first loop of `mergeDiscovered`, with the value of `changed` after it.
unfoldable pub add_found :
    Map Str HostTarget → Map Str DiscoveredHost → Map Str DiscoveredHost × Bool
add_found [] existing = (existing, false)
add_found ((name, target) ∷ rest) existing =
    let known = has name existing in
    let (merged, changed) = add_found rest (
      if known
      then existing
      else insert name (record { host_target = target; identity = none }) existing) in
    (merged, not known || changed)

-- `slices.Equal`
unfoldable pub equal : List Str → List Str → Bool
equal [] [] = true
equal [] (t ∷ ts) = false
equal (s ∷ ss) [] = false
equal (s ∷ ss) (t ∷ ts) = s == t && equal ss ts

unfoldable pub same_settings : HostTarget → HostTarget → Bool
unfolding equal
same_settings t u = t.target == u.target && equal t.arguments u.arguments

-- `old.Identity == nil || *old.Identity != *fresh.Identity`, for a host that is resolved and so has an
-- identity.
unfoldable pub is_renewed : Option HostIdentity → Option HostIdentity → Bool
is_renewed none fresh = true
is_renewed (some old) none = true
is_renewed (some old) (some fresh) = not (old.user == fresh.user && old.hostname == fresh.hostname)

-- What the body of the second loop puts under a name.
unfoldable pub renewed : Option DiscoveredHost → DiscoveredHost → Option DiscoveredHost
unfolding same_settings is_renewed
renewed none fresh = none
renewed (some old) fresh =
    if same_settings old.host_target fresh.host_target && is_renewed old.identity fresh.identity
    then some (record old { identity = fresh.identity })
    else none

-- The second loop.
unfoldable pub renew_resolved :
    Map Str DiscoveredHost → Map Str DiscoveredHost → Map Str DiscoveredHost × Bool
unfolding renewed
renew_resolved [] existing = (existing, false)
renew_resolved ((name, fresh) ∷ rest) existing =
    let update = renewed (lookup name existing) fresh in
    let (merged, changed) =
      renew_resolved rest (elim update [ none ↦ existing | some h ↦ insert name h existing ]) in
    (merged, is_some update || changed)

-- The records after `mergeDiscovered`, and whether they are written.
unfoldable pub merge_discovered :
    Map Str HostTarget
    → Map Str DiscoveredHost
    → Map Str DiscoveredHost
    → Map Str DiscoveredHost × Bool
unfolding add_found renew_resolved
merge_discovered found resolved existing =
    let (grown, added) = add_found found existing in
    let (merged, changed) = renew_resolved resolved grown in (merged, added || changed)

pub data EditError : Type 0 where
  invalid_host_name : EditError
  refused_target : TargetError → EditError

-- `slices.DeleteFunc` by the name.
unfoldable pub without : Str → List Str → List Str
without name [] = []
without name (s ∷ rest) = let later = without name rest in if s == name then later else s ∷ later

-- The target that is stored, whose name is the host's where it has none.
unfoldable pub named_target : Str → HostTarget → HostTarget
named_target name t = record t { target = if t.target == [] then name else t.target }

-- The change of the configuration that `EditHost` makes.
unfoldable pub change_host : Str → Option HostTarget → Bool → Configuration → Configuration
unfolding without
change_host name target ignore config =
    let kept_hosts = without name config.ignored_hosts in
    record config {
      hosts = elim target [ none ↦ config.hosts | some t ↦ insert name t config.hosts ];
      ignored_hosts =
          sort_func str_compare (if ignore then kept_hosts ++ name ∷ [] else kept_hosts);
    }

-- `EditHost`
unfoldable pub edit_host :
    Str → Option HostTarget → Bool → Configuration → Result EditError Configuration
unfolding named_target change_host
edit_host name target ignore config =
    if not (valid_host_name name) then err invalid_host_name else elim target [
      | none ↦ ok (change_host name none ignore config)
      | some t ↦
          let stored = named_target name t in
          elim (validate_target name stored) [
            | some e ↦ err (refused_target e)
            | none ↦ ok (change_host name (some stored) ignore config)
          ]
    ]
