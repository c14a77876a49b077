-- ===== src/App/Wire.antt =====
-- The configuration and its file form: `configuration`, `configFile` and the translations between
-- them in `cli/internal/app/config.go`.
pub mod Written
pub mod Roundtrip
use ssh_forward.App.Config.{ScopeRules, remembered_eq}
use ssh_forward.App.Targets.{HostTarget}
use ssh_forward.Core.Desired.{reserved_local_ports}
use ssh_forward.Core.Types.{
  ForwardingIntent, PublishedForward, RememberedForward, direction_eq, key_eq, state_eq, target_eq,
}
use ssh_forward.Prelude.{
  List, Map, Option, Result, Str, [], bool_eq, err, has, if◌then◌else◌, insert, length, lookup, ltb,
  nat_eq, none, ok, some, str_eq, value_or, ℕ, ◌&&◌, ◌++◌, ◌==◌, ◌||◌, ◌∷◌,
}

abbrev pub config_schema_version : ℕ
config_schema_version = 6

pub record ConfigFile : Type 0 where
  pub hosts : Map Str HostTarget
  pub ignored_hosts : List Str
  pub global_forwards : List RememberedForward
  pub global_working_directory_rules : List Str
  pub global_ignored_apps : List Str
  pub schema_version : ℕ
  pub remembered_forwards : Map Str (List RememberedForward)
  pub published_forwards : Map Str (List PublishedForward)
  pub working_directory_rules : Map Str (List Str)

-- The scope of a host is a pointer, which may be nil.
pub record Configuration : Type 0 where
  pub schema_version : ℕ
  pub hosts : Map Str HostTarget
  pub ignored_hosts : List Str
  pub rules : Map Str (Option ScopeRules)

pub data WireError : Type 0 where
  empty_host_alias publication_without_host : WireError

abbrev pub empty_rules : ScopeRules
empty_rules = record { forwards = []; published = []; directories = []; ignored_apps = [] }

-- The rules that `scope` points to.
unfoldable pub rules_at : Str → Map Str (Option ScopeRules) → ScopeRules
rules_at host rules = value_or (value_or (lookup host rules) none) empty_rules

-- An assignment to a field of `*config.scope(host)`.
unfoldable pub update_scope :
    Str → (ScopeRules → ScopeRules) → Map Str (Option ScopeRules) → Map Str (Option ScopeRules)
update_scope host f rules = insert host (some (f (rules_at host rules))) rules

module _ {V : Type 0} (assign : V → ScopeRules → ScopeRules) where
  -- One of the three loops over a map of the file.
  unfoldable pub assign_scopes :
      Map Str V → Map Str (Option ScopeRules) → Map Str (Option ScopeRules)
  unfolding update_scope
  assign_scopes [] rules = rules
  assign_scopes ((host, value) ∷ rest) rules =
      assign_scopes rest (update_scope host (assign value) rules)

abbrev pub assign_forwards : List RememberedForward → ScopeRules → ScopeRules
assign_forwards fs r = record r { forwards = fs }

abbrev pub assign_published : List PublishedForward → ScopeRules → ScopeRules
assign_published ps r = record r { published = ps }

abbrev pub assign_directories : List Str → ScopeRules → ScopeRules
assign_directories ds r = record r { directories = ds }

-- The scope of all hosts.
abbrev pub global_rules : ConfigFile → ScopeRules
global_rules file = record {
  forwards = file.global_forwards;
  published = [];
  directories = file.global_working_directory_rules;
  ignored_apps = file.global_ignored_apps;
}

-- `configuration` of `configFile`
unfoldable pub configuration : ConfigFile → Result WireError Configuration
unfolding assign_scopes
configuration file =
    if has [] file.remembered_forwards
      || has [] file.published_forwards
      || has [] file.working_directory_rules
    then err empty_host_alias
    else ok (record {
      schema_version = file.schema_version;
      hosts = file.hosts;
      ignored_hosts = file.ignored_hosts;
      rules = assign_scopes assign_directories file.working_directory_rules (
          assign_scopes assign_published file.published_forwards (
            assign_scopes assign_forwards file.remembered_forwards
              (insert [] (some (global_rules file)) [])));
    })

-- `if len(value) > 0 { m[host] = value }`
unfoldable pub write_list : {V : Type 0} → Str → List V → Map Str (List V) → Map Str (List V)
write_list host [] m = m
write_list host (v ∷ vs) m = insert host (v ∷ vs) m

-- The body of the loop of `wire`, once the rules are accepted.
unfoldable pub wire_scope : Str → ScopeRules → ConfigFile → ConfigFile
wire_scope host r file =
    if host == []
    then record file {
      global_forwards = r.forwards;
      global_working_directory_rules = r.directories;
      global_ignored_apps = r.ignored_apps;
    }
    else record file {
      remembered_forwards = write_list host r.forwards file.remembered_forwards;
      published_forwards = write_list host r.published file.published_forwards;
      working_directory_rules = write_list host r.directories file.working_directory_rules;
    }

-- The loop of `wire`.
unfoldable pub wire_scopes : Map Str (Option ScopeRules) → ConfigFile → Result WireError ConfigFile
unfolding wire_scope
wire_scopes [] file = ok file
wire_scopes ((host, none) ∷ rest) file = wire_scopes rest file
wire_scopes ((host, some r) ∷ rest) file =
    let next = wire_scopes rest (wire_scope host r file) in
    if host == [] && ltb 0 (length r.published) then err publication_without_host else next

-- The file before the loop.
abbrev pub blank_file : Configuration → ConfigFile
blank_file c = record {
  hosts = c.hosts;
  ignored_hosts = c.ignored_hosts;
  global_forwards = [];
  global_working_directory_rules = [];
  global_ignored_apps = [];
  schema_version = config_schema_version;
  remembered_forwards = [];
  published_forwards = [];
  working_directory_rules = [];
}

-- `wire`
unfoldable pub wire : Configuration → Result WireError ConfigFile
unfolding wire_scopes
wire c = wire_scopes c.rules (blank_file c)

-- The rules of one host, none for the host of the empty name.
abbrev pub scoped_rules : Map Str (Option ScopeRules) → Str → ScopeRules
scoped_rules rules host = if host == [] then empty_rules else rules_at host rules

unfoldable pub effective_intent : Configuration → Str → ForwardingIntent
effective_intent config host =
    let global = rules_at [] config.rules in
    let scoped = scoped_rules config.rules host in
    record {
      auto_forwards = global.forwards;
      reserved_local_ports = [];
      remembered_forwards = scoped.forwards;
      published_forwards = scoped.published;
      working_directory_rules = global.directories ++ scoped.directories;
      ignored_apps = global.ignored_apps;
    }
