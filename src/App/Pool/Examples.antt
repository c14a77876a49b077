-- ===== src/App/Pool/Examples.antt =====
-- The theorems of the pool at concrete inputs.
use ssh_forward.App.Config.{ScopeRules, published_eq, remembered_eq}
use ssh_forward.App.Equivalent.{
  beats, collapse_groups, collapse_same_hosts, group_key, group_targets, is_alias, prefer_host,
  resolve_targets, winner_of,
}
use ssh_forward.App.HostTargets.{
  add_missing, add_record, add_records, config_path, copy, delete_ignored, host_targets,
  known_targets, missing_host_config, named,
}
use ssh_forward.App.Config.{published_eq}
use ssh_forward.App.Pool.{
  ManagerOps, Pool, ReloadInput, close_stale, collect_reserved, host_intent, is_stale, reload,
  reserved_ports, sync_managers, wanted_targets,
}
use ssh_forward.App.Pool.Managers.{
  HasClosed, IsOpen, manager_ops, manager_ops-Answers, manager_ops-IsFinal,
}
use ssh_forward.App.Pool.Reload.{IsReloaded, reload_lem, targets_of}
use ssh_forward.App.Pool.Reserved.{reserved_ports_lem}
use ssh_forward.App.Pool.Stuck.{reload_stuck}
use ssh_forward.App.Pool.Total.{AllAlive, Answers, reload_total}
use ssh_forward.App.Registry.{equal, same_settings}
use ssh_forward.App.Targets.{DiscoveredHost, HostTarget}
use ssh_forward.App.Wire.{Configuration, effective_intent, rules_at}
use ssh_forward.Core.Desired.{Doublestar}
use ssh_forward.Core.Intent.{normalize_intent}
use ssh_forward.Core.Manager.{Manager, initial_manager}
use ssh_forward.Core.Manager.Operations.{close, context_done}
use ssh_forward.Core.Names.{
  first_invalid, normalize_ignored_apps, normalize_rule_names, normalize_working_directory_rules,
}
use ssh_forward.Core.Normalize.{
  normalize_forwards, normalize_loop, normalize_published_forwards, normalize_remembered_forwards,
}
use ssh_forward.Core.Types.{
  ForwardingIntent, PublishedForward, direction_eq, key_eq, state_eq, target_eq,
}
use ssh_forward.Prelude.{
  Bool-cases, Bool-discrete, Map, Str, Str-discrete, [], bool_eq, bytes, compact, contains, false,
  has, inl, inr, insert, insert_sorted, keys, lookup, nat_eq, none, ok, refl, some, sort_func,
  str_compare, str_eq, true, ℕ_discrete, ◌==◌, ◌↔◌, ◌∷◌, ◌≡◌, ◌≢◌,
}

abbrev literal_glob : Doublestar
literal_glob = record { glob_match = λ p s. some (p == s); validate_pattern = λ p. true }

abbrev dev : Str
dev = bytes "dev"

-- One host, to which a local service is published.
abbrev dev_rules : ScopeRules
dev_rules = record {
  forwards = [];
  published = record { local_port = 3000; remote_port = 80 } ∷ [];
  directories = [];
  ignored_apps = [];
}

abbrev one_host : Configuration
one_host = record {
  schema_version = 6;
  hosts = (dev, (named dev).1) ∷ [];
  ignored_hosts = [];
  rules = (dev, some dev_rules) ∷ [];
}

abbrev plain_host : Configuration
plain_host = record one_host { rules = [] }

abbrev no_hosts : Configuration
no_hosts = record { schema_version = 6; hosts = []; ignored_hosts = []; rules = [] }

abbrev reading : Configuration → ReloadInput
reading config = record {
  config = some config;
  records = some [];
  missing = λ path. false;
  resolve = λ name t. none;
  aliases = [];
  written = true;
}

abbrev empty_pool : Pool Manager
empty_pool = record { closed = false; requested = []; managers = []; targets = none }

pool_code : Unit {0}
unfolding Str-discrete ℕ_discrete Bool-discrete lookup insert contains str_compare prefer_host
    is_alias winner_of group_key resolve_targets group_targets beats collapse_groups
    collapse_same_hosts delete_ignored config_path missing_host_config add_record add_records copy
    add_missing known_targets host_targets wanted_targets
pool_code = tt

ports_code : Unit {0}
unfolding Str-discrete ℕ_discrete lookup contains rules_at collect_reserved reserved_ports sort_func
    insert_sorted compact
ports_code = tt

normal_code : Unit {0}
unfolding Str-discrete ℕ_discrete lookup contains rules_at collect_reserved reserved_ports sort_func
    insert_sorted compact host_intent effective_intent normalize_intent
    normalize_remembered_forwards normalize_forwards normalize_published_forwards
    normalize_working_directory_rules normalize_ignored_apps normalize_rule_names first_invalid
    normalize_loop
normal_code = tt

abbrev ops : ManagerOps Manager
ops = manager_ops literal_glob false

abbrev plain_targets : Map Str HostTarget
plain_targets = targets_of ops [] (reading plain_host) empty_pool plain_host []

wanted_hosts : keys plain_targets ≡ dev ∷ []
unfolding pool_code
wanted_hosts = refl

published_port : reserved_ports one_host ((dev, (named dev).1) ∷ []) ≡ 3000 ∷ []
unfolding ports_code
published_port = refl

reserved_ports_lem_example :
    (contains
        (host_intent one_host
          (reserved_ports one_host ((dev, (named dev).1) ∷ []))
          dev).reserved_local_ports
        3000
      ≡ true)
    ↔ ((name : Str) × (has name ((dev, (named dev).1) ∷ []) ≡ true)
        × (f : PublishedForward) × (contains (rules_at name one_host.rules).published f ≡ true)
        × (f.local_port ≡ 3000))
reserved_ports_lem_example = reserved_ports_lem one_host ((dev, (named dev).1) ∷ []) dev 3000

abbrev empty_intent : ForwardingIntent
empty_intent = record {
  auto_forwards = [];
  reserved_local_ports = [];
  remembered_forwards = [];
  published_forwards = [];
  working_directory_rules = [];
  ignored_apps = [];
}

normal_intents :
    (name : Str)
    → (n : ForwardingIntent) × (normalize_intent literal_glob
          (host_intent plain_host (reserved_ports plain_host plain_targets) name)
        ≡ ok n)
unfolding normal_code pool_code
normal_intents name = elim (Bool-cases (name == [])) [
  | inl e ↦ (empty_intent, rw e refl)
  | inr e ↦ (empty_intent, rw e refl)
]

answers :
    Answers ops
      (IsOpen literal_glob)
      (host_intent plain_host (reserved_ports plain_host plain_targets))
answers = manager_ops-Answers literal_glob _ normal_intents

reload_total_example :
    (q : Pool Manager) × (reload ops [] (reading plain_host) empty_pool ≡ (q, none))
    × AllAlive ops (IsOpen literal_glob) q.managers
reload_total_example =
    reload_total ops (IsOpen literal_glob) [] (reading plain_host) empty_pool plain_host [] refl
      (refl, refl, refl) answers tt

reload_lem_example :
    (config : Configuration) × (records : Map Str DiscoveredHost) × IsReloaded ops []
      (reading plain_host)
      empty_pool
      config
      records
      reload_total_example.0
      dev
reload_lem_example =
    reload_lem ops [] (reading plain_host) empty_pool reload_total_example.0 dev
      reload_total_example.1

-- The contexts of its `Close` calls end first.
abbrev late_ops : ManagerOps Manager
late_ops = manager_ops literal_glob true

abbrev dev_pool : Pool Manager
dev_pool = record {
  closed = false;
  requested = [];
  managers = (dev, initial_manager dev empty_intent) ∷ [];
  targets = some ((dev, (named dev).1) ∷ []);
}

stale_code : Unit {0}
unfolding pool_code close_stale is_stale same_settings equal close sync_managers reload
stale_code = tt

reload_stuck_example :
    (reload late_ops [] (reading plain_host) (reload late_ops [] (reading no_hosts) dev_pool).0).1
    ≢ none
unfolding stale_code
reload_stuck_example =
    reload_stuck late_ops (HasClosed literal_glob true) (manager_ops-IsFinal literal_glob true) []
      [] (reading no_hosts) (reading plain_host) dev_pool dev context_done no_hosts plain_host [] []
      refl (refl, tt) (refl, refl, refl) refl (refl, refl, refl) refl refl
