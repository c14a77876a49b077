-- ===== src/Core/Examples.antt =====
-- The theorems of the core at concrete inputs, and runs of its functions.
use mathlib.Core.List.{Perm}
use ssh_forward.Core.Desired.{
  DesiredMap, Doublestar, add_listeners, add_published, add_remembered, app_ignored,
  auto_candidates, build_desired_forwards, candidate_for, desired_automatic_forward,
  desired_published_forward, desired_remembered_forward, forward_status, is_abs,
  matches_working_directory, reserved_local_ports, select_candidate,
}
use ssh_forward.Core.Desired.Keyed.{IsWellKeyed}
use ssh_forward.Core.Desired.Selection.{import_key, lookup-build_desired_forwards, publish_key}
use ssh_forward.Core.Intent.{normalize_intent}
use ssh_forward.Core.Manager.{
  Manager, initial_manager, keep_forwards, new_manager, reconcile_forwards, reconcile_with,
  snapshots, start_forwards, starting_status, stop_workers, wait_forwards, wanted,
}
use ssh_forward.Core.Manager.Closed.{OnlyForgets, run_events-OnlyForgets}
use ssh_forward.Core.Manager.Invariant.{Inv, wanted-IsWellKeyed}
use ssh_forward.Core.Manager.Operations.{
  close, collect_listeners, forward_stopped, set_forward_state, set_listeners,
}
use ssh_forward.Core.Manager.Reconciled.{reconcile_with_lem}
use ssh_forward.Core.Manager.Runs.{
  Event, apply_event, reported, run_events, run_new_manager-Inv, scanned, stopped,
}
use ssh_forward.Core.Names.{
  first_invalid, normalize_ignored_apps, normalize_rule_names, normalize_working_directory_rules,
  valid_app_name, valid_ignored_app, valid_working_directory_rule,
}
use ssh_forward.Core.Names.Laws.{Ascending, normalize_rule_names_lem}
use ssh_forward.Core.Normalize.{
  normalize_forwards, normalize_loop, normalize_published_forward, normalize_published_forwards,
  normalize_remembered_forward, normalize_remembered_forwards,
}
use ssh_forward.Core.Normalize.Loop.{all_defaults}
use ssh_forward.Core.Normalize.Ports.{normalize_remembered_iff}
use ssh_forward.Core.Reconcile.{
  WorkerSnapshot, compare_forward_keys, keeps, plan_desired, plan_reconciliation, plan_workers,
  reserved_worker_port, same_forward_behavior, sorted_forward_keys, waits,
}
use ssh_forward.Core.Reconcile.Partition.{plan_partition, waits_iff}
use ssh_forward.Core.Types.{
  DesiredForward, Error, ForwardDirection, ForwardDirection-discrete, ForwardKey,
  ForwardKey-discrete, ForwardState, ForwardState-discrete, ForwardTarget, ForwardTarget-discrete,
  ForwardingIntent, Listener, PublishedForward, RememberedForward, direction_eq, error_diagnostic,
  find_backend, key, key_eq, published_with_defaults, remembered_with_defaults, state_eq, target_eq,
}
use ssh_forward.Core.Worker.{
  Surroundings, attempts, candidate_at, falls_back, forward_once, local_port_conflict,
  maximum_offset,
}
use ssh_forward.Core.Worker.Attempts.{
  Climbs, IsAllowed, forward_once-IsAllowed, forward_once_exhaustive, forward_once_strict,
}
use ssh_forward.Prelude.{
  All, Bool-discrete, Distinct, List, Map, Str-discrete, [], arith, bool_eq, bytes, compact,
  contains, delete, delete_if, false, find_first, find_last, has, insert, insert_sorted, is_plain,
  keys, lookup, map, nat_eq, ok, refl, runes, some, sort_func, str_compare, str_eq, true,
  ℕ_discrete, ◌+◌, ◌==◌, ◌∷◌, ◌≡◌, ◌≤◌, ◌⊎◌,
}

-- A glob that matches itself alone; every pattern is well formed.
abbrev literal_glob : Doublestar
literal_glob = record { glob_match = λ p s. some (p == s); validate_pattern = λ p. true }

abbrev web : RememberedForward
web = record { remote_port = 5173; local_port = 0; allow_fallback = false }

abbrev web_filled : RememberedForward
web_filled = record { remote_port = 5173; local_port = 5173; allow_fallback = true }

abbrev api : RememberedForward
api = record { remote_port = 80; local_port = 8080; allow_fallback = false }

abbrev browser : PublishedForward
browser = record { local_port = 9222; remote_port = 0 }

abbrev browser_filled : PublishedForward
browser_filled = record { local_port = 9222; remote_port = 9222 }

abbrev node : Listener
node = record { port = 3000; app = bytes "node"; working_directory = bytes "/srv" }

abbrev raw_intent : ForwardingIntent
raw_intent = record {
  auto_forwards = [];
  reserved_local_ports = [];
  remembered_forwards = web ∷ api ∷ [];
  published_forwards = browser ∷ [];
  working_directory_rules = bytes "/srv" ∷ bytes "/opt" ∷ bytes "/srv" ∷ [];
  ignored_apps = bytes "hunk" ∷ [];
}

abbrev normal_intent : ForwardingIntent
normal_intent = record {
  auto_forwards = [];
  reserved_local_ports = [];
  remembered_forwards = api ∷ web_filled ∷ [];
  published_forwards = browser_filled ∷ [];
  working_directory_rules = bytes "/opt" ∷ bytes "/srv" ∷ [];
  ignored_apps = bytes "hunk" ∷ [];
}

-- Naming this on an `unfolding` line opens the functions of the core.
opened_core : Unit {0}
unfolding ℕ_discrete Str-discrete Bool-discrete ForwardDirection-discrete ForwardState-discrete
    ForwardKey-discrete ForwardTarget-discrete lookup insert delete delete_if contains find_first
    find_last insert_sorted sort_func str_compare compact runes is_plain is_abs
    remembered_with_defaults published_with_defaults normalize_loop normalize_forwards
    normalize_remembered_forward normalize_published_forward normalize_remembered_forwards
    normalize_published_forwards valid_app_name valid_ignored_app valid_working_directory_rule
    first_invalid normalize_rule_names normalize_ignored_apps normalize_working_directory_rules
    normalize_intent all_defaults
opened_core = tt

normalize_raw_intent : normalize_intent literal_glob raw_intent ≡ ok normal_intent
unfolding opened_core
normalize_raw_intent = refl

abbrev opened_manager : Manager
opened_manager = reconcile_forwards literal_glob (initial_manager (bytes "my-dev") normal_intent)

new_manager-raw_intent : new_manager literal_glob (bytes "my-dev") raw_intent ≡ ok opened_manager
unfolding opened_core new_manager
new_manager-raw_intent = refl

-- A scan finds the listener of port 3000, whose worker becomes active and stops later.
abbrev history : List Event
history =
    scanned (node ∷ [])
    ∷ reported (import_key 3000) 3 ForwardState.active [] (record {
      direction = ForwardDirection.remote_to_local;
      remote_port = 3000;
      local_port = 3000;
    })
    ∷ scanned []
    ∷ stopped (import_key 3000) 3
    ∷ []

run_new_manager-Inv_example : Inv literal_glob (run_events literal_glob history opened_manager)
run_new_manager-Inv_example =
    run_new_manager-Inv literal_glob (bytes "my-dev") raw_intent opened_manager history
      new_manager-raw_intent

-- What runs after the scan, and after the whole history.
opened_manager_code : Unit {0}
unfolding opened_core key desired_remembered_forward desired_published_forward
    desired_automatic_forward forward_status reserved_local_ports add_remembered add_published
    auto_candidates select_candidate matches_working_directory app_ignored candidate_for
    add_listeners build_desired_forwards wanted compare_forward_keys sorted_forward_keys
    same_forward_behavior reserved_worker_port keeps plan_workers waits plan_desired
    plan_reconciliation snapshots keep_forwards stop_workers wait_forwards start_forwards
    reconcile_with reconcile_forwards initial_manager collect_listeners set_listeners
    set_forward_state forward_stopped apply_event run_events close
opened_manager_code = tt

history_runs :
    (has
        (import_key 3000)
        (run_events literal_glob (scanned (node ∷ []) ∷ []) opened_manager).forward_workers
      ≡ true)
    × (keys (run_events literal_glob history opened_manager).forward_workers
        ≡ import_key 80 ∷ import_key 5173 ∷ publish_key 9222 ∷ [])
unfolding opened_manager_code
history_runs = (refl, refl)

run_events-OnlyForgets_example :
    OnlyForgets (close opened_manager) (run_events literal_glob history (close opened_manager))
unfolding close
run_events-OnlyForgets_example =
    run_events-OnlyForgets literal_glob history (close opened_manager) refl

abbrev wanted_forwards : DesiredMap
wanted_forwards = wanted literal_glob opened_manager

wanted_forwards-IsWellKeyed : IsWellKeyed wanted_forwards
wanted_forwards-IsWellKeyed = wanted-IsWellKeyed literal_glob opened_manager

abbrev api_wanted : DesiredForward
api_wanted = record {
  preferred = record {
    direction = ForwardDirection.remote_to_local;
    remote_port = 80;
    local_port = 8080;
  };
  automatic = false;
  allow_fallback = false;
}

reconcile_with_lem_example :
    lookup (import_key 80) (reconcile_with wanted_forwards opened_manager).states
    ≡ some (starting_status api_wanted)
unfolding opened_manager_code
reconcile_with_lem_example =
    (reconcile_with_lem wanted_forwards opened_manager wanted_forwards-IsWellKeyed
      (import_key 80)).0

-- An import that is active on the local port 9222, which a publication needs.
abbrev squatter : DesiredForward
squatter = record {
  preferred = record {
    direction = ForwardDirection.remote_to_local;
    remote_port = 9222;
    local_port = 9222;
  };
  automatic = true;
  allow_fallback = true;
}

abbrev squatting : Map ForwardKey WorkerSnapshot
squatting =
    (
      import_key 9222,
      record {
        desired = squatter;
        status = record (starting_status squatter) { state = ForwardState.active };
      },
    )
    ∷ []

plan_partition_example :
    (contains (plan_reconciliation wanted_forwards squatting (9222 ∷ [])).stop (import_key 9222)
      ≡ true)
unfolding opened_manager_code
plan_partition_example =
    (plan_partition wanted_forwards squatting (9222 ∷ []) wanted_forwards-IsWellKeyed
      (import_key 9222)).0

-- The publication of the port 9222 waits for that import.
waits_iff_example :
    contains
      (map key (plan_reconciliation wanted_forwards squatting (9222 ∷ [])).wait)
      (publish_key 9222)
    ≡ true
unfolding opened_manager_code
waits_iff_example =
    (waits_iff wanted_forwards squatting (9222 ∷ []) wanted_forwards-IsWellKeyed
        (publish_key 9222)).1
      (
        refl,
        desired_published_forward browser_filled,
        refl,
        refl,
        import_key 9222,
        refl,
        (refl, refl, refl),
      )

lookup-build_desired_forwards_example :
    lookup (import_key 3000) (
      build_desired_forwards literal_glob
        (api ∷ [])
        (browser_filled ∷ [])
        ((3000, node) ∷ [])
        (bytes "/srv" ∷ [])
        []
        [])
    ≡ some (desired_automatic_forward 3000)
unfolding opened_manager_code
lookup-build_desired_forwards_example =
    (lookup-build_desired_forwards literal_glob (api ∷ []) (browser_filled ∷ []) ((3000, node) ∷ [])
      (bytes "/srv" ∷ []) [] [] (refl, tt) 3000).0

-- The preferred port is reserved, and every other one is in conflict.
abbrev busy : Surroundings
busy = record {
  reserved = λ i p. p == 9222;
  outcome = λ i t. some (Error.backend local_port_conflict);
  cancelled = λ i. false;
}

attempts_code : Unit {0}
unfolding opened_core candidate_at maximum_offset falls_back attempts forward_once find_backend
    error_diagnostic
attempts_code = tt

busy_attempts :
    map (λ (t : ForwardTarget). t.local_port) (forward_once busy api_wanted).0 ≡ 8080 ∷ []
unfolding attempts_code
busy_attempts = refl

forward_once-IsAllowed_example :
    All (IsAllowed busy squatter 0 (maximum_offset squatter + 1)) (forward_once busy squatter).0
    × Climbs busy squatter (forward_once busy squatter).0
    × (maximum_offset squatter ≤ 20)
forward_once-IsAllowed_example = forward_once-IsAllowed busy squatter

forward_once_exhaustive_example :
    contains (forward_once busy squatter).0 (candidate_at squatter 20) ≡ true
unfolding attempts_code
forward_once_exhaustive_example =
    forward_once_exhaustive busy squatter refl (λ j. refl) (λ j t. refl) refl 20 (omega arith)
      (omega arith) refl

forward_once_strict_example :
    ((forward_once busy api_wanted).0 ≡ [])
    ⊎ ((forward_once busy api_wanted).0 ≡ api_wanted.preferred ∷ [])
unfolding opened_core
forward_once_strict_example = forward_once_strict busy api_wanted (omega arith) refl

normalize_remembered_web :
    normalize_remembered_forwards (web ∷ api ∷ []) ≡ ok (api ∷ web_filled ∷ [])
unfolding opened_core
normalize_remembered_web = refl

normalize_remembered_iff_example :
    Distinct (map (λ (f : RememberedForward). f.remote_port) (web ∷ api ∷ []))
    × Perm (api ∷ web_filled ∷ []) (map remembered_with_defaults (web ∷ api ∷ []))
normalize_remembered_iff_example =
    let same = normalize_remembered_iff (web ∷ api ∷ []) in
    (
      (same.0.0 (api ∷ web_filled ∷ [], normalize_remembered_web)).1,
      same.1 (api ∷ web_filled ∷ []) normalize_remembered_web,
    )

normalize_published_browser : normalize_published_forwards (browser ∷ []) ≡ ok (browser_filled ∷ [])
unfolding opened_core
normalize_published_browser = refl

normalize_hunk :
    normalize_ignored_apps (bytes "vi" ∷ bytes "hunk" ∷ bytes "vi" ∷ [])
    ≡ ok (bytes "hunk" ∷ bytes "vi" ∷ [])
unfolding opened_core
normalize_hunk = refl

normalize_rule_names_lem_example : Ascending (bytes "hunk" ∷ bytes "vi" ∷ [])
unfolding normalize_ignored_apps
normalize_rule_names_lem_example =
    (normalize_rule_names_lem valid_ignored_app (bytes "vi" ∷ bytes "hunk" ∷ bytes "vi" ∷ [])
      (bytes "hunk" ∷ bytes "vi" ∷ []) normalize_hunk).1
