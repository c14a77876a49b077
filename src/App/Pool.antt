-- ===== src/App/Pool.antt =====
-- One manager per host: `cli/internal/app/manager_pool.go`. Files, the resolver and the ends of the
-- managers' calls are arguments.
pub mod Applied
pub mod Reloaded
pub mod Settled
pub mod Reload
pub mod Total
pub mod Managers
pub mod Examples
pub mod Stuck
pub mod Reserved
use ssh_forward.App.Discovery.Sweep.{missing}
use ssh_forward.App.Equivalent.{zero_target}
use ssh_forward.App.HostTargets.{delete_ignored, host_targets, named}
use ssh_forward.App.Registry.{same_settings}
use ssh_forward.App.Targets.{DiscoveredHost, HostIdentity, HostTarget}
use ssh_forward.App.Wire.{Configuration, effective_intent, rules_at}
use ssh_forward.App.Wire.Written.{written}
use ssh_forward.Core.Desired.{reserved_local_ports}
use ssh_forward.Core.Manager.Operations.{ManagerError, close, manager_closed, status}
use ssh_forward.Core.Types.{
  ForwardingIntent, PublishedForward, Status, direction_eq, key_eq, state_eq, target_eq,
}
use ssh_forward.Prelude.{
  Bool, List, Map, Option, Ordering, Result, Str, [], bool_eq, by_source, compact, err, false, has,
  if◌then◌else◌, insert, keys, lookup, map, nat_eq, none, not, ok, some, sort_func, str_compare,
  str_eq, true, value_or, ℕ, ◌++◌, ◌==◌, ◌>>=◌, ◌||◌, ◌∷◌, ◌≡◌,
}

-- What the pool calls of a manager, and `createTarget`: `update` and `close` return the manager after
-- the call with its error.
pub record ManagerOps (M : Type 0) : Type 0 where
  pub create : Str → HostTarget → ForwardingIntent → Result ManagerError M
  pub update : Str → ForwardingIntent → M → M × Option ManagerError
  pub close : Str → M → M × Option ManagerError
  pub status : M → Result ManagerError Status

pub record Pool (M : Type 0) : Type 0 where
  pub closed : Bool
  pub requested : Map Str HostTarget
  pub managers : Map Str M
  pub targets : Option (Map Str HostTarget)

pub data PoolError : Type 0 where
  pool_closed config_unreadable records_unreadable records_unwritable : PoolError
  close_failed update_failed start_failed : Str → ManagerError → PoolError

-- What `reload` reads: the configuration and the records, where they can be read, and what the
-- resolver, `ConfiguredHosts`, the file system and the lock of the records answer.
pub record ReloadInput : Type 0 where
  pub config : Option Configuration
  pub records : Option (Map Str DiscoveredHost)
  pub missing : Str → Bool
  pub resolve : Str → HostTarget → Option HostIdentity
  pub aliases : List Str
  pub written : Bool

-- Everything is read, and the records are stored.
abbrev pub Reads : ReloadInput → Configuration → Map Str DiscoveredHost → Type 0
Reads input config records =
    (input.config ≡ some config) × (input.records ≡ some records) × (input.written ≡ true)

abbrev pub published_ports : Configuration → Str → List ℕ
published_ports config name =
    map (λ (f : PublishedForward). f.local_port) (rules_at name config.rules).published

-- The loop that collects `reserved`.
unfoldable pub collect_reserved : Configuration → List Str → List ℕ
collect_reserved config [] = []
collect_reserved config (name ∷ rest) = published_ports config name ++ collect_reserved config rest

abbrev pub by_value : ℕ → ℕ → Ordering
by_value = by_source (λ (p : ℕ). p)

unfoldable pub reserved_ports : Configuration → Map Str HostTarget → List ℕ
unfolding collect_reserved sort_func compact
reserved_ports config targets =
    compact (sort_func by_value (collect_reserved config (keys targets)))

-- The intent of one host in the last loop.
unfoldable pub host_intent : Configuration → List ℕ → Str → ForwardingIntent
unfolding effective_intent
host_intent config reserved name = record (effective_intent config name) {
  reserved_local_ports = reserved;
}

abbrev pub target_at : Str → Map Str HostTarget → HostTarget
target_at name targets = value_or (lookup name targets) zero_target

-- Whether the manager of a name has to be closed.
unfoldable pub is_stale : Option (Map Str HostTarget) → Map Str HostTarget → Str → Bool
unfolding same_settings
is_stale old targets name = not (has name targets) || elim old [
  | none ↦ false
  | some before ↦ not (same_settings (target_at name before) (target_at name targets))
]

-- `p.requested[host] = HostTarget{Target: host}`
abbrev pub request : {M : Type 0} → Str → Pool M → Pool M
request host p =
    if host == [] then p else record p { requested = insert host (named host).1 p.requested }

-- The targets that `reload` works with.
unfoldable pub wanted_targets :
    ReloadInput → Configuration → Map Str DiscoveredHost → Map Str HostTarget → Map Str HostTarget
unfolding host_targets delete_ignored
wanted_targets input config records requested =
    delete_ignored config.ignored_hosts
      (host_targets input.missing input.resolve input.aliases config records requested).0

module _ {M : Type 0} (ops : ManagerOps M) where
  -- The loop that closes managers, with its error.
  unfoldable pub close_stale : (Str → Bool) → Map Str M → Map Str M × Option PoolError
  close_stale stale [] = ([], none)
  close_stale stale ((name, m) ∷ rest) =
      let (kept_ones, e) = close_stale stale rest in
      if not (stale name) then ((name, m) ∷ kept_ones, e) else elim (ops.close name m).1 [
        | some failure ↦ ((name, (ops.close name m).0) ∷ rest, some (close_failed name failure))
        | none ↦ (kept_ones, e)
      ]

  -- The last loop, over the names in order.
  unfoldable pub apply_targets :
      (Str → ForwardingIntent)
      → Map Str HostTarget
      → List Str
      → Map Str M
      → Map Str M × Option PoolError
  apply_targets intent targets [] managers = (managers, none)
  apply_targets intent targets (name ∷ rest) managers = elim (lookup name managers) [
    | some m ↦
        let (m', e) = ops.update name (intent name) m in
        elim e [
          | some failure ↦ (insert name m' managers, some (update_failed name failure))
          | none ↦ apply_targets intent targets rest (insert name m' managers)
        ]
    | none ↦ elim (ops.create name (target_at name targets) (intent name)) [
      | err failure ↦ (managers, some (start_failed name failure))
      | ok m ↦ apply_targets intent targets rest (insert name m managers)
    ]
  ]

  -- What `reload` does once it has the targets.
  unfoldable pub sync_managers :
      Configuration → Map Str HostTarget → Pool M → Pool M × Option PoolError
  unfolding is_stale close_stale apply_targets reserved_ports host_intent
  sync_managers config targets p =
      let (left, problem) = close_stale (is_stale p.targets targets) p.managers in
      elim problem [
        | some e ↦ (record p { managers = left }, some e)
        | none ↦
            let (managers, failure) =
              apply_targets (host_intent config (reserved_ports config targets)) targets
                (sort_func str_compare (keys targets)) left in
            (record p { managers = managers; targets = some targets }, failure)
      ]

  unfoldable pub reload : Str → ReloadInput → Pool M → Pool M × Option PoolError
  unfolding wanted_targets sync_managers
  reload host input p = if p.closed then (p, some pool_closed) else elim input.config [
    | none ↦ (p, some config_unreadable)
    | some config ↦
        let asked = request host p in
        elim input.records [
          | none ↦ (asked, some records_unreadable)
          | some records ↦
              if not input.written
              then (asked, some records_unwritable)
              else sync_managers config (wanted_targets input config records asked.requested) asked
        ]
  ]

  -- `lookup`
  unfoldable pub find_manager : Str → Pool M → Option M
  find_manager host p = if p.closed then none else lookup host p.managers

  -- The loop of `AllStatuses`.
  unfoldable pub collect_statuses : Map Str M → Result ManagerError (List Status)
  collect_statuses [] = ok []
  collect_statuses ((name, m) ∷ rest) = do
    found ← ops.status m
    later ← collect_statuses rest
    ok (found ∷ later)

  unfoldable pub all_statuses : Pool M → Result ManagerError (List Status)
  unfolding collect_statuses sort_func
  all_statuses p = if p.closed then err manager_closed else do
    statuses ← collect_statuses p.managers
    ok (sort_func (λ a b. str_compare a.host b.host) statuses)

  -- `Close`, up to the ends of the calls that it makes.
  unfoldable pub close_pool : Pool M → Pool M × List Str
  close_pool p = (record p { closed = true }, keys p.managers)
