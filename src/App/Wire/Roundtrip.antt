-- ===== src/App/Wire/Roundtrip.antt =====
-- Reading what was written.
use ssh_forward.App.Config.{ScopeRules, remembered_eq}
use ssh_forward.App.Wire.{
  ConfigFile, Configuration, assign_directories, assign_forwards, assign_published, assign_scopes,
  blank_file, config_schema_version, configuration, effective_intent, empty_rules, global_rules,
  rules_at, update_scope, wire,
}
use ssh_forward.App.Wire.Written.{AllWritable, AreOpen, seen, wire_scopes_lem, written}
use ssh_forward.Core.Types.{
  PublishedForward, RememberedForward, direction_eq, key_eq, state_eq, target_eq,
}
use ssh_forward.Prelude.{
  ==_refl, Bool-cases, List, Map, Option, Str, Str-discrete, Unique, [], ap, arith, bool_eq,
  eq_of_==, false, has, if◌then◌else◌, inl, inr, insert, lookup, lookup-insert, nat_eq, none, ok,
  refl, some, str_eq, value_or, ◌==◌, ◌∙◌, ◌∷◌, ◌≡◌,
}

rules_at-update_scope :
    (host k : Str) (f : ScopeRules → ScopeRules) (rules : Map Str (Option ScopeRules))
    → rules_at k (update_scope host f rules)
      ≡ (if host == k then f (rules_at k rules) else rules_at k rules)
unfolding update_scope rules_at
rules_at-update_scope host k f rules =
    ap (λ (o : Option (Option ScopeRules)). value_or (value_or o none) empty_rules)
      (lookup-insert host k (some (f (rules_at host rules))) rules)
    ∙ elim (Bool-cases (host == k)) [
      | inl t ↦ rw t (ap (λ (j : Str). f (rules_at j rules)) (eq_of_== host k t))
      | inr n ↦ rw n refl
    ]

module _ {V : Type 0} (assign : V → ScopeRules → ScopeRules) where
  abbrev assigned : Option V → ScopeRules → ScopeRules
  assigned none r = r
  assigned (some v) r = assign v r

  rules_at-assign_scopes :
      (m : Map Str V) (rules : Map Str (Option ScopeRules))
      → Unique m
      → (k : Str)
      → rules_at k (assign_scopes assign m rules) ≡ assigned (lookup k m) (rules_at k rules)
  unfolding assign_scopes lookup
  rules_at-assign_scopes [] rules u k = refl
  rules_at-assign_scopes ((host, v) ∷ rest) rules u k = ground (
    arith,
    rules_at-assign_scopes rest (update_scope host (assign v) rules) u.1 k,
    rules_at-update_scope host k (assign v) rules,
    u.0,
  )

-- A scope starts empty, and each list that is found is set.
assigned_all :
    (fs : Option (List RememberedForward)) (ps : Option (List PublishedForward))
    (ds : Option (List Str))
    → assigned assign_directories ds
        (assigned assign_published ps (assigned assign_forwards fs empty_rules))
      ≡ record {
        forwards = value_or fs [];
        published = value_or ps [];
        directories = value_or ds [];
        ignored_apps = [];
      }
assigned_all fs ps ds = ground arith

scopes_at :
    (file : ConfigFile) (k : Str)
    → AreOpen (λ k. false) file
    → assigned assign_directories (lookup k file.working_directory_rules) (
        assigned assign_published (lookup k file.published_forwards) (
          assigned assign_forwards
            (lookup k file.remembered_forwards)
            (rules_at k (insert [] (some (global_rules file)) []))))
      ≡ seen k file
unfolding insert lookup rules_at Str-discrete
scopes_at file [] o =
    rw (o.directories.unset [] refl, o.published.unset [] refl, o.forwards.unset [] refl) refl
scopes_at file (c ∷ k) o =
    assigned_all (lookup (c ∷ k) file.remembered_forwards) (lookup (c ∷ k) file.published_forwards)
      (lookup (c ∷ k) file.working_directory_rules)

-- What the three loops leave for a scope.
rules_at-configuration :
    (file : ConfigFile)
    → AreOpen (λ k. false) file
    → (back : Configuration) × (configuration file ≡ ok back)
      × (back.hosts ≡ file.hosts)
      × (back.ignored_hosts ≡ file.ignored_hosts)
      × (back.schema_version ≡ file.schema_version)
      × ((k : Str) → rules_at k back.rules ≡ seen k file)
unfolding configuration
rules_at-configuration file o =
    let base = insert [] (some (global_rules file)) [] in
    let first = assign_scopes assign_forwards file.remembered_forwards base in
    let second = assign_scopes assign_published file.published_forwards first in
    let nothing_forwards = o.forwards.unset [] (rw (==_refl {A = Str} []) refl) in
    let nothing_published = o.published.unset [] (rw (==_refl {A = Str} []) refl) in
    let nothing_directories = o.directories.unset [] (rw (==_refl {A = Str} []) refl) in
    (
      _,
      rw (nothing_forwards, nothing_published, nothing_directories) refl,
      refl,
      refl,
      refl,
      λ k.
          rules_at-assign_scopes assign_directories file.working_directory_rules second
            o.directories.unique k
          ∙ ap (assigned assign_directories (lookup k file.working_directory_rules)) (
              rules_at-assign_scopes assign_published file.published_forwards first
                o.published.unique k
              ∙ ap (assigned assign_published (lookup k file.published_forwards)) (
                  rules_at-assign_scopes assign_forwards file.remembered_forwards base
                    o.forwards.unique k))
          ∙ scopes_at file k o,
    )

blank_file-AreOpen : (c : Configuration) → AreOpen (λ k. has k c.rules) (blank_file c)
unfolding lookup
blank_file-AreOpen c = record {
  forwards = record { unique = tt; unset = λ k h. refl };
  published = record { unique = tt; unset = λ k h. refl };
  directories = record { unique = tt; unset = λ k h. refl };
}

written_blank :
    (c : Configuration) (k : Str)
    → written (lookup k c.rules) (seen k (blank_file c)) ≡ rules_at k c.rules
unfolding rules_at lookup
written_blank c k = ground arith

-- A configuration without publications for all hosts and without ignored apps of one host can be
-- written; what is written can be read; and reading it returns the same rules for every scope, where
-- an absent scope has no rules, the same hosts and ignored hosts, and the current schema version.
pub configuration-wire :
    (c : Configuration)
    → Unique c.rules
    → AllWritable c.rules
    → (file : ConfigFile) × (wire c ≡ ok file)
      × (back : Configuration) × (configuration file ≡ ok back)
      × (back.hosts ≡ c.hosts)
      × (back.ignored_hosts ≡ c.ignored_hosts)
      × (back.schema_version ≡ config_schema_version)
      × ((k : Str) → rules_at k back.rules ≡ rules_at k c.rules)
unfolding wire
configuration-wire c u w =
    let (file, e, o, head, s) = wire_scopes_lem c.rules (blank_file c) u w (blank_file-AreOpen c) in
    let (back, e', hosts, ignored, version, rules) = rules_at-configuration file o in
    (
      file,
      e,
      back,
      e',
      hosts ∙ head.hosts,
      ignored ∙ head.ignored_hosts,
      version ∙ head.schema_version,
      λ k. rules k ∙ s k ∙ written_blank c k,
    )

-- Writing and reading a configuration that can be written changes the intent of no host.
pub effective_intent-configuration :
    (c : Configuration)
    → Unique c.rules
    → AllWritable c.rules
    → (file : ConfigFile) × (wire c ≡ ok file)
      × (back : Configuration) × (configuration file ≡ ok back)
      × ((host : Str) → effective_intent back host ≡ effective_intent c host)
unfolding effective_intent
effective_intent-configuration c u w =
    let (file, e, back, e', _, _, _, rules) = configuration-wire c u w in
    (file, e, back, e', λ host. rw (rules [], rules host) refl)
