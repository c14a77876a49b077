-- ===== src/App/Edits.antt =====
-- The configuration as a whole: `normalizeConfig` of `cli/internal/app/config_normalize.go`, and the
-- edits of `config_forwards.go` and `config_rules.go` there, up to the file and its lock.
pub mod Loadable
pub mod Loaded
pub mod Stored
pub mod Saved
pub mod Examples
pub mod Reload
pub mod Remembered
use ssh_forward.App.Config.{
  ConfigError, ScopeRules, edit_rule, item_at, normalize_rules, prefix_config, published_eq,
  remembered_eq,
}
use ssh_forward.App.HostTargets.{named}
use ssh_forward.App.Targets.{HostTarget, TargetError, validate_target}
use ssh_forward.App.Wire.{
  ConfigFile, Configuration, WireError, config_schema_version, rules_at, wire,
}
use ssh_forward.Core.Desired.{Doublestar}
use ssh_forward.Core.Names.{valid_host_name, valid_ignored_app, valid_working_directory_rule}
use ssh_forward.Core.Normalize.{
  IntentError, normalize_published_forwards, normalize_remembered_forwards,
}
use ssh_forward.Core.Types.{
  PublishedForward, RememberedForward, direction_eq, key_eq, state_eq, target_eq,
}
use ssh_forward.Prelude.{
  Bool, Map, Option, Result, Str, [], bool_eq, err, false, has, if◌then◌else◌, insert, nat_eq, none,
  not, ok, or_else, some, str_eq, true, ℕ, ◌&&◌, ◌==◌, ◌>>=◌, ◌∷◌,
}

pub data LoadError : Type 0 where
  unsupported_schema : ℕ → LoadError
  invalid_scope : ConfigError → LoadError
  invalid_host : TargetError → LoadError

-- `remember`
unfoldable pub remember : Str → Map Str HostTarget → Map Str HostTarget
remember host hosts =
    if not (host == []) && not (has host hosts) then insert host (named host).1 hosts else hosts

-- The loop over `config.Rules`, with the rules and the hosts that it leaves.
unfoldable pub normalize_scopes :
    Doublestar
    → Map Str (Option ScopeRules)
    → Map Str HostTarget
    → Result LoadError (Map Str (Option ScopeRules) × Map Str HostTarget)
unfolding remember
normalize_scopes glob [] hosts = ok ([], hosts)
normalize_scopes glob ((host, none) ∷ rest) hosts = do
  later ← normalize_scopes glob rest (remember host hosts)
  ok ((host, none) ∷ later.0, later.1)
normalize_scopes glob ((host, some rules) ∷ rest) hosts = elim (normalize_rules glob rules) [
  | err e ↦ err (invalid_scope e)
  | ok normal ↦ do
    later ← normalize_scopes glob rest (remember host hosts)
    ok ((host, some normal) ∷ later.0, later.1)
]

-- The loop over `config.Hosts`.
unfoldable pub validate_hosts : Map Str HostTarget → Option TargetError
unfolding validate_target
validate_hosts [] = none
validate_hosts ((name, t) ∷ rest) = or_else (validate_target name t) (validate_hosts rest)

unfoldable pub normalize_config : Doublestar → Configuration → Result LoadError Configuration
unfolding normalize_scopes validate_hosts
normalize_config glob config =
    if not (config.schema_version == config_schema_version)
    then err (unsupported_schema config.schema_version)
    else do
      left ← normalize_scopes glob config.rules config.hosts
      elim (validate_hosts left.1) [
        | some e ↦ err (invalid_host e)
        | none ↦ ok (record config { rules = left.0; hosts = left.1 })
      ]

-- What the next edit finds if there is no file.
abbrev pub no_config : Configuration
no_config = record { schema_version = 0; hosts = []; ignored_hosts = []; rules = [] }

-- `loadConfigForWrite`, given what the file holds, if there is one.
unfoldable pub load_config_for_write :
    Doublestar → Option Configuration → Result LoadError Configuration
unfolding normalize_config
load_config_for_write glob none = ok no_config
load_config_for_write glob (some stored) = normalize_config glob stored

-- Why an edit of rules fails.
pub data RuleEditError : Type 0 where
  invalid_host_name host_required : RuleEditError
  refused : ConfigError → RuleEditError
  invalid_rule : IntentError → RuleEditError
  unwritable : WireError → RuleEditError

-- `editConfig`, given the configuration that it loads, with the file that it writes if the edit
-- changes anything.
unfoldable pub edit_config :
    (Configuration → Result RuleEditError (Configuration × Bool))
    → Configuration
    → Result RuleEditError (Option ConfigFile)
unfolding wire
edit_config edit config = do
  after ← edit config
  if not after.1
      then ok none
      else elim (wire after.0) [ err e ↦ err (unwritable e) | ok file ↦ ok (some file) ]

-- The edit that `editScope` hands to `editConfig`.
unfoldable pub change_scope :
    Doublestar
    → Str
    → (ScopeRules → ScopeRules × Bool)
    → Configuration
    → Result RuleEditError (Configuration × Bool)
change_scope glob host edit config =
    let (rules, changed) = edit (rules_at host config.rules) in
    if not changed
    then ok (record config { rules = insert host (some rules) config.rules }, false)
    else elim (normalize_rules glob rules) [
      | err e ↦ err (refused e)
      | ok normal ↦ ok (record config { rules = insert host (some normal) config.rules }, true)
    ]

unfoldable pub edit_scope :
    Doublestar
    → Str
    → (ScopeRules → ScopeRules × Bool)
    → Configuration
    → Result RuleEditError (Option ConfigFile)
unfolding change_scope edit_config
edit_scope glob host edit config =
    if not (host == []) && not (valid_host_name host)
    then err invalid_host_name
    else edit_config (change_scope glob host edit) config

abbrev zero_remembered : RememberedForward
zero_remembered = record { local_port = 0; remote_port = 0; allow_fallback = false }

abbrev zero_published : PublishedForward
zero_published = record { local_port = 0; remote_port = 0 }

-- `normalizedRememberedForward`
unfoldable pub normalized_remembered_forward :
    RememberedForward → Result ConfigError RememberedForward
unfolding item_at normalize_remembered_forwards
normalized_remembered_forward forward = do
  normalized ← prefix_config (normalize_remembered_forwards (forward ∷ []))
  ok (item_at zero_remembered 0 normalized)

-- `normalizedPublishedForward`
unfoldable pub normalized_published_forward : PublishedForward → Result ConfigError PublishedForward
unfolding item_at normalize_published_forwards
normalized_published_forward forward = do
  normalized ← prefix_config (normalize_published_forwards (forward ∷ []))
  ok (item_at zero_published 0 normalized)

-- What `editRule` does to one list of a scope.
abbrev pub change_forwards : RememberedForward → Bool → ScopeRules → ScopeRules × Bool
change_forwards forward adding rules =
    let edited =
      edit_rule (λ (f : RememberedForward). f.remote_port) rules.forwards forward adding in
    (record rules { forwards = edited.0 }, edited.2)

abbrev pub change_published : PublishedForward → Bool → ScopeRules → ScopeRules × Bool
change_published forward adding rules =
    let edited =
      edit_rule (λ (f : PublishedForward). f.local_port) rules.published forward adding in
    (record rules { published = edited.0 }, edited.2)

abbrev pub change_directories : Str → Bool → ScopeRules → ScopeRules × Bool
change_directories pattern adding rules =
    let edited = edit_rule (λ (s : Str). s) rules.directories pattern adding in
    (record rules { directories = edited.0 }, edited.2)

abbrev pub change_ignored_apps : Str → Bool → ScopeRules → ScopeRules × Bool
change_ignored_apps name adding rules =
    let edited = edit_rule (λ (s : Str). s) rules.ignored_apps name adding in
    (record rules { ignored_apps = edited.0 }, edited.2)

-- The file that is written, and the forward that the caller finds in its argument.
unfoldable pub edit_remembered_forward :
    Doublestar
    → Str
    → RememberedForward
    → Bool
    → Configuration
    → Result RuleEditError (RememberedForward × Option ConfigFile)
unfolding normalized_remembered_forward edit_scope edit_rule
edit_remembered_forward glob host forward adding config =
    elim (normalized_remembered_forward forward) [
      | err e ↦ err (refused e)
      | ok normal ↦ do
        file ← edit_scope glob host (change_forwards normal adding) config
        ok (
          (edit_rule (λ (f : RememberedForward). f.remote_port)
              (rules_at host config.rules).forwards normal adding).1,
          file,
        )
    ]

unfoldable pub edit_published_forward :
    Doublestar
    → Str
    → PublishedForward
    → Bool
    → Configuration
    → Result RuleEditError (PublishedForward × Option ConfigFile)
unfolding normalized_published_forward edit_scope edit_rule
edit_published_forward glob host forward adding config =
    if host == [] then err host_required else elim (normalized_published_forward forward) [
      | err e ↦ err (refused e)
      | ok normal ↦ do
        file ← edit_scope glob host (change_published normal adding) config
        ok (
          (edit_rule (λ (f : PublishedForward). f.local_port) (rules_at host config.rules).published
              normal adding).1,
          file,
        )
    ]

unfoldable pub edit_working_directory_rule :
    Doublestar → Str → Str → Bool → Configuration → Result RuleEditError (Option ConfigFile)
unfolding valid_working_directory_rule edit_scope edit_rule
edit_working_directory_rule glob host pattern adding config =
    elim (valid_working_directory_rule glob pattern) [
      | some e ↦ err (invalid_rule e)
      | none ↦ edit_scope glob host (change_directories pattern adding) config
    ]

unfoldable pub edit_ignored_app :
    Doublestar → Str → Bool → Configuration → Result RuleEditError (Option ConfigFile)
unfolding valid_ignored_app edit_scope edit_rule
edit_ignored_app glob name adding config = elim (valid_ignored_app name) [
  | some e ↦ err (invalid_rule e)
  | none ↦ edit_scope glob [] (change_ignored_apps name adding) config
]
