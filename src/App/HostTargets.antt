-- ===== src/App/HostTargets.antt =====
-- The set of hosts: `hostTargets` and `missingHostConfig` of `cli/internal/app/host_registry.go`.
use ssh_forward.App.Discovery.Sweep.{missing}
use ssh_forward.App.Equivalent.{collapse_same_hosts}
use ssh_forward.App.Targets.{DiscoveredHost, HostIdentity, HostTarget}
use ssh_forward.App.Wire.{Configuration}
use ssh_forward.Core.Types.{direction_eq, key_eq, state_eq, target_eq}
use ssh_forward.Prelude.{
  Bool, List, Map, Option, Str, [], bool_eq, bytes, contains, false, has, if◌then◌else◌, insert,
  map, nat_eq, none, not, some, str_eq, ◌==◌, ◌||◌, ◌∷◌,
}

-- The loop of `missingHostConfig`: the value of the last `-F`.
unfoldable pub config_path : Str → List Str → Str
config_path path [] = path
config_path path (flag ∷ []) = path
config_path path (flag ∷ value ∷ rest) =
    config_path (if flag == bytes "-F" then value else path) rest

-- `missing` says which files do not exist.
module _ (missing : Str → Bool) where
  unfoldable pub missing_host_config : HostTarget → Bool
  unfolding config_path
  missing_host_config t =
      let path = config_path [] t.arguments in if path == [] then false else missing path

  -- The body of the loop over the records, for one that is not explicit.
  unfoldable pub add_record :
      Str
      → DiscoveredHost
      → Map Str HostTarget × Map Str HostIdentity
      → Map Str HostTarget × Map Str HostIdentity
  unfolding missing_host_config
  add_record name r (targets, cached) =
      if not (missing_host_config r.host_target)
      then (insert name r.host_target targets, cached)
      else elim r.identity [
        | none ↦ (targets, cached)
        | some identity ↦ (insert name r.host_target targets, insert name identity cached)
      ]

  unfoldable pub add_records :
      Map Str HostTarget
      → Map Str DiscoveredHost
      → Map Str HostTarget × Map Str HostIdentity
      → Map Str HostTarget × Map Str HostIdentity
  unfolding add_record
  add_records hosts [] state = state
  add_records hosts ((name, r) ∷ rest) state =
      add_records hosts rest (if has name hosts then state else add_record name r state)

-- `maps.Copy`
unfoldable pub copy : Map Str HostTarget → Map Str HostTarget → Map Str HostTarget
copy targets [] = targets
copy targets ((name, t) ∷ rest) = copy (insert name t targets) rest

unfoldable pub add_missing : Map Str HostTarget → Map Str HostTarget → Map Str HostTarget
add_missing targets [] = targets
add_missing targets ((name, t) ∷ rest) =
    add_missing (if has name targets then targets else insert name t targets) rest

-- A host that is only known by its name.
abbrev pub named : Str → Str × HostTarget
named name = (name, record { target = name; arguments = [] })

-- The names and the targets before they are collapsed, with the identities of expired records.
unfoldable pub known_targets :
    (Str → Bool)
    → Configuration
    → Map Str DiscoveredHost
    → Map Str HostTarget
    → Map Str HostTarget × Map Str HostIdentity
unfolding add_records copy add_missing
known_targets missing config records extra =
    let (recorded, cached) = add_records missing config.hosts records ([], []) in
    (
      add_missing (add_missing (copy recorded config.hosts) extra) (map named config.ignored_hosts),
      cached,
    )

-- `hostTargets`, with what the resolver, `ConfiguredHosts` and the file system answer.
unfoldable pub host_targets :
    (Str → Bool)
    → (Str → HostTarget → Option HostIdentity)
    → List Str
    → Configuration
    → Map Str DiscoveredHost
    → Map Str HostTarget
    → Map Str HostTarget × Map Str DiscoveredHost
unfolding known_targets collapse_same_hosts
host_targets missing resolve aliases config records extra =
    let (targets, cached) = known_targets missing config records extra in
    collapse_same_hosts resolve cached targets config.hosts aliases

-- The loop of `reload` over the targets that takes away the ignored ones.
unfoldable pub delete_ignored : List Str → Map Str HostTarget → Map Str HostTarget
delete_ignored ignored [] = []
delete_ignored ignored ((name, t) ∷ rest) =
    let later = delete_ignored ignored rest in
    if contains ignored name || contains ignored t.target then later else (name, t) ∷ later
