-- ===== src/App/Edits/Examples.antt =====
-- The theorems of the edits at concrete inputs, and runs of the edits.
use ssh_forward.App.Config.{
  ScopeRules, delete_at, edit_rule, first_reserved, index_func, item_at, normalize_rules,
  published_eq, remembered_eq, set_at, validate_local_port_reservations,
}
use ssh_forward.App.Edits.{
  change_forwards, change_scope, edit_config, edit_remembered_forward, edit_scope,
  load_config_for_write, normalize_config, normalize_scopes, normalized_remembered_forward,
  remember, validate_hosts,
}
use ssh_forward.App.Edits.Reload.{edit_scope-loads}
use ssh_forward.App.Edits.Remembered.{edit_remembered_forward_lem, forward_at}
use ssh_forward.App.HostTargets.{named}
use ssh_forward.App.Targets.{check_arguments, validate_target}
use ssh_forward.App.Wire.{
  ConfigFile, Configuration, blank_file, configuration, rules_at, wire, wire_scope, wire_scopes,
  write_list,
}
use ssh_forward.App.Wire.Written.{AllWritable, IsWritable}
use ssh_forward.Core.Desired.{Doublestar}
use ssh_forward.Core.Names.{
  first_invalid, normalize_ignored_apps, normalize_rule_names, normalize_working_directory_rules,
  valid_host_name,
}
use ssh_forward.Core.Normalize.{
  normalize_forwards, normalize_loop, normalize_published_forward, normalize_published_forwards,
  normalize_remembered_forward, normalize_remembered_forwards,
}
use ssh_forward.Core.Types.{
  RememberedForward, direction_eq, key_eq, published_with_defaults, remembered_with_defaults,
  state_eq, target_eq,
}
use ssh_forward.Prelude.{
  Bool-discrete, Str, Str-discrete, [], arith, bool_eq, bytes, compact, contains, false,
  if◌then◌else◌, insert, insert_sorted, is_plain, lookup, nat_eq, none, ok, refl, some, sort_func,
  str_compare, str_eq, true, ℕ, ℕ_discrete, ◌++◌, ◌==◌, ◌∷◌, ◌≡◌,
}

abbrev literal_glob : Doublestar
literal_glob = record { glob_match = λ p s. some (p == s); validate_pattern = λ p. true }

abbrev dev : Str
dev = bytes "dev"

-- One host with one import, and no entry in the map of hosts.
abbrev stored_rules : ScopeRules
stored_rules = record {
  forwards = record { local_port = 8080; remote_port = 80; allow_fallback = false } ∷ [];
  published = [];
  directories = [];
  ignored_apps = [];
}

abbrev stored : Configuration
stored = record {
  schema_version = 6;
  hosts = [];
  ignored_hosts = [];
  rules = (dev, some stored_rules) ∷ [];
}

abbrev loaded : Configuration
loaded = record stored { hosts = (dev, (named dev).1) ∷ [] }

abbrev web : RememberedForward
web = record { local_port = 3000; remote_port = 3000; allow_fallback = true }

edits_code : Unit {0}
unfolding ℕ_discrete Str-discrete Bool-discrete lookup insert contains insert_sorted sort_func
    str_compare compact is_plain remember normalize_scopes validate_hosts validate_target
    check_arguments valid_host_name normalize_config normalize_rules normalize_loop
    normalize_forwards normalize_remembered_forward normalize_published_forward
    normalize_remembered_forwards normalize_published_forwards first_invalid normalize_rule_names
    normalize_ignored_apps normalize_working_directory_rules remembered_with_defaults
    published_with_defaults first_reserved validate_local_port_reservations index_func item_at
    delete_at set_at edit_rule rules_at write_list wire_scope wire_scopes wire edit_config
    change_scope edit_scope
edits_code = tt

loads : load_config_for_write literal_glob (some stored) ≡ ok loaded
unfolding edits_code load_config_for_write
loads = refl

abbrev written_file : ConfigFile
written_file = record (blank_file loaded) {
  remembered_forwards = (dev, stored_rules.forwards ++ web ∷ []) ∷ [];
}

writes : edit_scope literal_glob dev (change_forwards web true) loaded ≡ ok (some written_file)
unfolding edits_code
writes = refl

change_forwards-IsWritable :
    (r : ScopeRules) → IsWritable dev r → IsWritable dev (change_forwards web true r).0
change_forwards-IsWritable r w = record { global = w.global; named = w.named }

loaded-AllWritable : AllWritable loaded.rules
unfolding edits_code
loaded-AllWritable =
    (λ r same. record { global = λ e. absurd (ground arith); named = λ n. ground arith }, tt)

edit_scope-loads_example :
    (normal : ScopeRules) × (normalize_rules literal_glob
        (change_forwards web true (rules_at dev loaded.rules)).0
      ≡ ok normal)
    × (back : Configuration) × (configuration written_file ≡ ok back)
    × (again : Configuration) × (normalize_config literal_glob back ≡ ok again)
    × ((k : Str) → rules_at k again.rules ≡ (if dev == k then normal else rules_at k loaded.rules))
unfolding edits_code
edit_scope-loads_example =
    edit_scope-loads literal_glob dev (change_forwards web true) (some stored) loaded written_file
      loads (refl, tt) loaded-AllWritable change_forwards-IsWritable writes

edits_web : edit_remembered_forward literal_glob dev web true loaded ≡ ok (web, some written_file)
unfolding edits_code edit_remembered_forward normalized_remembered_forward
edits_web = refl

edit_remembered_forward_lem_example :
    (f : RememberedForward) × (normalized_remembered_forward web ≡ ok f)
    × (back : Configuration) × (configuration written_file ≡ ok back)
    × (again : Configuration) × (normalize_config literal_glob back ≡ ok again)
    × ((k : ℕ)
        → forward_at k (rules_at dev again.rules).forwards ≡ (
            if f.remote_port == k
            then (if true then some f else none)
            else forward_at k (rules_at dev loaded.rules).forwards))
    × ((other : Str)
        → (dev == other) ≡ false
        → rules_at other again.rules ≡ rules_at other loaded.rules)
unfolding lookup
edit_remembered_forward_lem_example =
    edit_remembered_forward_lem literal_glob dev web web true (some stored) loaded written_file
      loads (refl, tt) loaded-AllWritable edits_web
