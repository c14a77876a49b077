-- ===== src/App/Examples.antt =====
-- The theorems of the service at concrete inputs, and runs of its functions.
use ssh_forward.App.Config.{
  RememberedForward-discrete, ScopeRules, delete_at, edit_rule, first_reserved, index_func, item_at,
  normalize_rules, published_eq, remembered_eq, set_at, validate_local_port_reservations,
}
use ssh_forward.App.Config.Edited.{rule_at}
use ssh_forward.App.Config.Reserved.{KeepsOff, normalize_rules-KeepsOff}
use ssh_forward.App.Discovery.{
  HostProcess, discover_processes, exclude_children, exclude_named, excluded_processes,
  find_targets, is_skipped, process_target, put_target, sweep,
}
use ssh_forward.App.Discovery.Closure.{IsClosed, excluded_processes_lem}
use ssh_forward.App.Discovery.Found.{Connects, discover_processes_lem, id_of}
use ssh_forward.App.Equivalent.{
  beats, collapse_groups, collapse_same_hosts, group_key, group_targets, is_alias, prefer_host,
  resolve_targets, winner_of, zero_target,
}
use ssh_forward.App.Equivalent.Collapsed.{IsChosen, collapse_same_hosts_iff}
use ssh_forward.App.Processes.{
  accept_process, parse_argument, parse_arguments, parse_ssh_process, trim,
}
use ssh_forward.App.Processes.Parsed.{parse_ssh_process-of_valid, parse_ssh_process-valid}
use ssh_forward.App.Registry.{
  add_found, change_host, edit_host, equal, is_renewed, merge_discovered, named_target,
  renew_resolved, renewed, same_settings, without,
}
use ssh_forward.App.Registry.Edited.{edit_host_lem}
use ssh_forward.App.Registry.Merged.{added, merge_discovered_lem}
use ssh_forward.App.Registry.Renewed.{IsUpdateOf}
use ssh_forward.App.TargetId.{hex, last_rune_size, shorten, target_id}
use ssh_forward.App.TargetId.Bounds.{target_id_total}
use ssh_forward.App.Targets.{
  DiscoveredHost, HostIdentity, HostTarget, check_arguments, check_option, keep_arguments,
  keep_valid_arguments, valid_port, validate_target,
}
use ssh_forward.App.Targets.Kept.{keep_valid_arguments_lem, valid_options}
use ssh_forward.App.Wire.{ConfigFile, Configuration, configuration, rules_at, wire}
use ssh_forward.App.Wire.Roundtrip.{configuration-wire}
use ssh_forward.App.Wire.Written.{AllWritable}
use ssh_forward.Core.Desired.{Doublestar, is_abs}
use ssh_forward.Core.Names.{
  first_invalid, max_host_alias_length, normalize_ignored_apps, normalize_rule_names,
  normalize_working_directory_rules, valid_host_name, valid_ignored_app,
  valid_working_directory_rule,
}
use ssh_forward.Core.Normalize.{
  normalize_forwards, normalize_loop, normalize_published_forward, normalize_published_forwards,
  normalize_remembered_forward, normalize_remembered_forwards,
}
use ssh_forward.Core.Types.{
  RememberedForward, direction_eq, key_eq, published_with_defaults, remembered_with_defaults,
  state_eq, target_eq,
}
use ssh_forward.Prelude.{
  Bool, Bool-discrete, List, Map, Option, Str, Str-discrete, Unique, [], arith, bool_eq, bytes,
  compact, contains, cut, false, has, has_prefix, if◌then◌else◌, insert, insert_sorted, is_plain,
  keys, length, lookup, nat_eq, none, ok, parse_uint, refl, some, sort_func, str_compare, str_eq,
  take, to_lower, true, ℕ, ℕ_discrete, ◌&&◌, ◌++◌, ◌==◌, ◌∷◌, ◌≡◌, ◌≤◌,
}

abbrev plain : Str → HostTarget
plain name = record { target = name; arguments = [] }

-- Two names of one machine, the second one an alias of the SSH config, and a machine that does not
-- resolve.
abbrev machines : Map Str HostTarget
machines =
    (bytes "me@dev", plain (bytes "me@dev"))
    ∷ (bytes "dev", plain (bytes "dev"))
    ∷ (bytes "gone", plain (bytes "gone"))
    ∷ []

abbrev resolver : Str → HostTarget → Option HostIdentity
resolver name t =
    if name == bytes "gone"
    then none
    else some (record { user = bytes "me"; hostname = bytes "dev" })

hosts_code : Unit {0}
unfolding Str-discrete ℕ_discrete Bool-discrete lookup insert contains str_compare prefer_host
    is_alias winner_of group_key resolve_targets group_targets beats collapse_groups
    collapse_same_hosts
hosts_code = tt

collapse_machines :
    keys (collapse_same_hosts resolver [] machines [] (bytes "dev" ∷ [])).0
    ≡ bytes "dev" ∷ bytes "gone" ∷ []
unfolding hosts_code
collapse_machines = refl

machines-Unique : Unique machines
unfolding hosts_code
machines-Unique = (refl, (refl, (refl, tt)))

collapse_same_hosts_iff_example :
    IsChosen resolver [] machines [] (bytes "dev" ∷ []) (bytes "dev") (plain (bytes "dev"))
unfolding hosts_code
collapse_same_hosts_iff_example =
    (collapse_same_hosts_iff resolver [] machines [] (bytes "dev" ∷ []) machines-Unique
        (bytes "dev") (plain (bytes "dev"))).0
      refl

-- A child stands before its parent, so a second pass is needed.
abbrev processes : List HostProcess
processes =
    record { pid = 12; ppid = 11; uid = 501; name = bytes "ssh" }
    ∷ record { pid = 11; ppid = 10; uid = 501; name = bytes "sh" }
    ∷ record { pid = 10; ppid = 1; uid = 501; name = bytes "ssh-forward" }
    ∷ record { pid = 13; ppid = 1; uid = 501; name = bytes "ssh" }
    ∷ []

discovery_code : Unit {0}
unfolding Str-discrete ℕ_discrete contains exclude_named sweep exclude_children excluded_processes
discovery_code = tt

excluded_run : excluded_processes processes 20 ≡ some (12 ∷ 11 ∷ 10 ∷ 20 ∷ [])
unfolding discovery_code
excluded_run = refl

excluded_processes_lem_example :
    (out : List ℕ) × (excluded_processes processes 20 ≡ some out)
    × IsClosed processes 20 (contains out)
    × ((s : ℕ → Bool) → IsClosed processes 20 s → (j : ℕ) → contains out j ≡ true → s j ≡ true)
excluded_processes_lem_example = excluded_processes_lem processes 20

abbrev import_of : ℕ → ℕ → Bool → RememberedForward
import_of remote local fallback = record {
  remote_port = remote;
  local_port = local;
  allow_fallback = fallback;
}

abbrev remote_of : RememberedForward → ℕ
remote_of f = f.remote_port

abbrev imports : List RememberedForward
imports = import_of 80 8080 false ∷ import_of 3000 3000 true ∷ []

config_code : Unit {0}
unfolding Str-discrete ℕ_discrete Bool-discrete RememberedForward-discrete contains lookup insert
    index_func item_at delete_at set_at edit_rule rule_at
config_code = tt

-- A browser port is published, and an import with fallback prefers the same port.
abbrev scope_rules : ScopeRules
scope_rules = record {
  forwards = import_of 9222 9222 true ∷ import_of 80 8080 false ∷ [];
  published = record { local_port = 9222; remote_port = 0 } ∷ [];
  directories = bytes "/srv" ∷ [];
  ignored_apps = [];
}

abbrev normal_rules : ScopeRules
normal_rules = record {
  forwards = import_of 80 8080 false ∷ import_of 9222 9222 true ∷ [];
  published = record { local_port = 9222; remote_port = 9222 } ∷ [];
  directories = bytes "/srv" ∷ [];
  ignored_apps = [];
}

abbrev any_glob : Doublestar
any_glob = record { glob_match = λ p s. some (p == s); validate_pattern = λ p. true }

normalize_scope_rules : normalize_rules any_glob scope_rules ≡ ok normal_rules
unfolding config_code insert_sorted sort_func str_compare compact is_abs remembered_with_defaults
    published_with_defaults normalize_loop normalize_forwards normalize_remembered_forward
    normalize_published_forward normalize_remembered_forwards normalize_published_forwards
    valid_ignored_app valid_working_directory_rule first_invalid normalize_rule_names
    normalize_ignored_apps normalize_working_directory_rules first_reserved
    validate_local_port_reservations normalize_rules
normalize_scope_rules = refl

normalize_rules-KeepsOff_example : KeepsOff (9222 ∷ []) normal_rules.forwards
normalize_rules-KeepsOff_example =
    (normalize_rules-KeepsOff any_glob scope_rules normal_rules normalize_scope_rules).0

abbrev config : Configuration
config = record {
  schema_version = 6;
  hosts = machines;
  ignored_hosts = bytes "old" ∷ [];
  rules =
      (
        [],
        some (record {
          forwards = imports;
          published = [];
          directories = bytes "/srv" ∷ [];
          ignored_apps = bytes "hunk" ∷ [];
        }),
      )
      ∷ (bytes "gone", none)
      ∷ (bytes "dev", some (record normal_rules { forwards = [] }))
      ∷ [];
}

config-Unique : Unique config.rules
unfolding config_code
config-Unique = (refl, (refl, (refl, tt)))

config-AllWritable : AllWritable config.rules
config-AllWritable = (
  λ r h. record { global = λ e. ground arith; named = λ n. absurd (n refl) },
  (
    λ r h. absurd (ground arith),
    (λ r h. record { global = λ e. absurd (ground arith); named = λ n. ground arith }, tt),
  ),
)

configuration-wire_example :
    (file : ConfigFile) × (wire config ≡ ok file)
    × (back : Configuration) × (configuration file ≡ ok back)
    × (back.hosts ≡ machines)
    × (back.ignored_hosts ≡ bytes "old" ∷ [])
    × (back.schema_version ≡ 6)
    × ((k : Str) → rules_at k back.rules ≡ rules_at k config.rules)
configuration-wire_example = configuration-wire config config-Unique config-AllWritable

abbrev mixed_target : HostTarget
mixed_target = record {
  target = bytes "web";
  arguments = bytes "-p" ∷ bytes "2222" ∷ bytes "-i" ∷ bytes "id" ∷ bytes "-J" ∷ bytes "gw" ∷ [];
}

abbrev jump_target : HostTarget
jump_target = record {
  target = bytes "web";
  arguments = bytes "-p" ∷ bytes "2222" ∷ bytes "-J" ∷ bytes "gw" ∷ [];
}

abbrev jump_command : List Str
jump_command =
    bytes "ssh"
    ∷ bytes "-p2222"
    ∷ bytes "-L"
    ∷ bytes "80:db:80"
    ∷ bytes "-J"
    ∷ bytes "gw"
    ∷ bytes "-N"
    ∷ bytes "web"
    ∷ bytes "uptime"
    ∷ []

-- Names the functions that the runs below compute.
targets_code : Unit {0}
unfolding keep_valid_arguments keep_arguments validate_target check_arguments check_option
    valid_port valid_options valid_host_name parse_ssh_process parse_arguments parse_argument
    accept_process trim parse_uint is_plain has_prefix contains cut to_lower is_abs lookup insert
    process_target put_target find_targets discover_processes excluded_processes exclude_named
    exclude_children sweep target_id shorten hex last_rune_size take is_skipped ℕ_discrete
    Str-discrete
targets_code = tt

keep_valid_arguments_run : keep_valid_arguments mixed_target ≡ jump_target
unfolding targets_code
keep_valid_arguments_run = refl

parse_ssh_process_run : parse_ssh_process jump_command ≡ some jump_target
unfolding targets_code
parse_ssh_process_run = refl

keep_valid_arguments_lem_example :
    (keep_valid_arguments mixed_target
      ≡ record { target = bytes "web"; arguments = valid_options mixed_target.arguments })
    × (validate_target (bytes "web") (keep_valid_arguments mixed_target) ≡ none)
    × (validate_target (bytes "web") mixed_target ≡ none
        → keep_valid_arguments mixed_target ≡ mixed_target)
unfolding targets_code
keep_valid_arguments_lem_example = keep_valid_arguments_lem mixed_target refl

parse_ssh_process-valid_example : validate_target (bytes "web") jump_target ≡ none
unfolding targets_code
parse_ssh_process-valid_example = parse_ssh_process-valid jump_command jump_target refl

parse_ssh_process-of_valid_example :
    parse_ssh_process (bytes "/usr/bin/ssh" ∷ (jump_target.arguments ++ jump_target.target ∷ []))
    ≡ some jump_target
unfolding targets_code
parse_ssh_process-of_valid_example =
    parse_ssh_process-of_valid (bytes "/usr/bin/ssh") jump_target refl

-- Stands for the sum of a target's JSON.
abbrev sum_of : HostTarget → Str
sum_of t = t.target ++ bytes "-sum-of-json"

target_id_run : target_id sum_of jump_target ≡ some (bytes "web-7765622d7375")
unfolding targets_code
target_id_run = refl

target_id_total_example :
    (id : Str) × (target_id sum_of jump_target ≡ some id) × (length id ≤ max_host_alias_length)
unfolding targets_code
target_id_total_example = target_id_total sum_of jump_target refl

abbrev read_jump : ℕ → Option (List Str)
read_jump pid = if pid == 30 then some jump_command else none

abbrev running : List HostProcess
running =
    record { pid = 30; ppid = 1; uid = 7; name = bytes "ssh" }
    ∷ record { pid = 20; ppid = 1; uid = 7; name = bytes "ssh-forward" }
    ∷ record { pid = 31; ppid = 20; uid = 7; name = bytes "ssh" }
    ∷ []

discover_processes_run :
    discover_processes running 20 7 read_jump sum_of
    ≡ some ((bytes "web-7765622d7375", jump_target) ∷ [])
unfolding targets_code
discover_processes_run = refl

discover_processes_lem_example :
    (excluded : List ℕ) × (targets : Map Str HostTarget) × (excluded_processes running 20
      ≡ some excluded)
    × (discover_processes running 20 7 read_jump sum_of ≡ some targets)
    × ((key : Str) (t : HostTarget)
        → lookup key targets ≡ some t
        → Connects 7 excluded read_jump sum_of running t
          × (id_of 7 excluded read_jump sum_of t ≡ key)
          × (validate_target t.target t ≡ none))
    × ((t : HostTarget)
        → Connects 7 excluded read_jump sum_of running t
        → has (id_of 7 excluded read_jump sum_of t) targets ≡ true)
discover_processes_lem_example = discover_processes_lem running 20 7 read_jump sum_of

abbrev recorded : Map Str DiscoveredHost
recorded = (bytes "web", record { host_target = jump_target; identity = none }) ∷ []

abbrev found_targets : Map Str HostTarget
found_targets = (bytes "web", mixed_target) ∷ (bytes "db", zero_target) ∷ []

abbrev resolved_hosts : Map Str DiscoveredHost
resolved_hosts =
    (
      bytes "web",
      record {
        host_target = jump_target;
        identity = some (record { user = bytes "me"; hostname = bytes "web.local" });
      },
    )
    ∷ []

registry_code : Unit {0}
unfolding merge_discovered add_found renew_resolved renewed same_settings equal is_renewed edit_host
    change_host named_target without validate_target check_arguments check_option valid_port
    valid_host_name parse_uint is_plain contains lookup insert sort_func insert_sorted str_compare
    ℕ_discrete Str-discrete
registry_code = tt

merge_discovered_run :
    (merge_discovered found_targets resolved_hosts recorded).0
    ≡ resolved_hosts ++ (bytes "db", record { host_target = zero_target; identity = none }) ∷ []
unfolding registry_code
merge_discovered_run = refl

found_targets-Unique : Unique found_targets
unfolding registry_code
found_targets-Unique = (refl, (refl, tt))

resolved_hosts-Unique : Unique resolved_hosts
unfolding registry_code
resolved_hosts-Unique = (refl, tt)

merge_discovered_lem_example :
    ((k : Str)
      → added (lookup k recorded) (lookup k found_targets) ≡ none
      → lookup k (merge_discovered found_targets resolved_hosts recorded).0 ≡ none)
    × ((k : Str) (old : DiscoveredHost)
        → added (lookup k recorded) (lookup k found_targets) ≡ some old
        → (new : DiscoveredHost) × (lookup k
              (merge_discovered found_targets resolved_hosts recorded).0
            ≡ some new)
          × IsUpdateOf old (lookup k resolved_hosts) new)
    × ((merge_discovered found_targets resolved_hosts recorded).1 ≡ false
        → (merge_discovered found_targets resolved_hosts recorded).0 ≡ recorded)
merge_discovered_lem_example =
    merge_discovered_lem found_targets resolved_hosts recorded found_targets-Unique
      resolved_hosts-Unique

edit_host_lem_example :
    (out : Configuration) × (edit_host (bytes "web") (some jump_target) true config ≡ ok out)
    × ((k : Str)
        → contains out.ignored_hosts k
          ≡ (if bytes "web" == k then true else contains config.ignored_hosts k))
    × ((k : Str)
        → lookup k out.hosts ≡ (
            if true && bytes "web" == k
            then some (named_target (bytes "web") jump_target)
            else lookup k config.hosts))
    × (out.rules ≡ config.rules)
unfolding registry_code
edit_host_lem_example = edit_host_lem (bytes "web") jump_target true true config refl refl
