-- ===== src/App/Edits/Reload.antt =====
-- What is loaded after an edit of rules.
use mathlib.Core.Path.{subst}
use ssh_forward.App.Config.{
  ScopeRules, first_reserved, normalize_rules, published_eq, remembered_eq,
  validate_local_port_reservations,
}
use ssh_forward.App.Edits.{edit_scope, load_config_for_write, normalize_config}
use ssh_forward.App.Edits.Loadable.{
  AllHosts, IsLoadable, IsNormalScope, IsScope, normalize_config_succeeds,
}
use ssh_forward.App.Edits.Loaded.{load_config_for_write-IsLoadable}
use ssh_forward.App.Edits.Saved.{IsLoadable-of_IsWritten, IsWritable-normal, edit_scope-IsWritten}
use ssh_forward.App.Edits.Stored.{FileKeys-wire, HasKeys-configuration}
use ssh_forward.App.Equivalent.Groups.{All-of_lookup}
use ssh_forward.App.Wire.{ConfigFile, Configuration, configuration, empty_rules, rules_at, wire}
use ssh_forward.App.Wire.Roundtrip.{configuration-wire}
use ssh_forward.App.Wire.Written.{AllWritable, IsWritable}
use ssh_forward.Core.Desired.{Doublestar}
use ssh_forward.Core.Names.{
  normalize_ignored_apps, normalize_rule_names, normalize_working_directory_rules,
}
use ssh_forward.Core.Normalize.{
  normalize_forwards, normalize_published_forwards, normalize_remembered_forwards,
}
use ssh_forward.Core.Types.{direction_eq, key_eq, state_eq, target_eq}
use ssh_forward.Prelude.{
  All, All-insert, All-lookup, Bool, Map, Option, Option-cases, Str, Str-discrete, Unique, ap,
  arith, bool_eq, if◌then◌else◌, inl, inr, insert, insert-Unique, lookup, lookup-insert, nat_eq,
  none, ok, refl, some, str_eq, sym, ◌==◌, ◌∙◌, ◌≡◌,
}

empty-IsNormal : (glob : Doublestar) → normalize_rules glob empty_rules ≡ ok empty_rules
unfolding normalize_rules normalize_remembered_forwards normalize_published_forwards
    normalize_forwards normalize_working_directory_rules normalize_ignored_apps normalize_rule_names
    validate_local_port_reservations first_reserved
empty-IsNormal glob = refl

module _ (glob : Doublestar) where
  abbrev AreNormal : Map Str (Option ScopeRules) → Type 0
  AreNormal = All (IsNormalScope glob)

  pub rules_at-normal :
      (rules : Map Str (Option ScopeRules)) (k : Str)
      → AreNormal rules
      → normalize_rules glob (rules_at k rules) ≡ ok (rules_at k rules)
  unfolding rules_at
  rules_at-normal rules k a = elim (Option-cases (lookup k rules)) [
    | inl e ↦ rw e (empty-IsNormal glob)
    | inr (none, e) ↦ rw e (empty-IsNormal glob)
    | inr (some r, e) ↦ rw e (All-lookup (IsNormalScope glob) k (some r) rules a e r refl)
  ]

  AreNormal-of_rules_at :
      (rules others : Map Str (Option ScopeRules))
      → Unique others
      → ((k : Str) → rules_at k others ≡ rules_at k rules)
      → AreNormal rules
      → AreNormal others
  unfolding rules_at
  AreNormal-of_rules_at rules others u same a =
      All-of_lookup (λ k o. (r : ScopeRules) → o ≡ some r → normalize_rules glob r ≡ ok r) others u
        (λ k o found r is.
          subst (λ x. normalize_rules glob x ≡ ok x) (sym (same k) ∙ ground (arith, found, is))
            (rules_at-normal rules k a))

  rules_at-IsWritable :
      (rules : Map Str (Option ScopeRules)) (k : Str)
      → AllWritable rules
      → IsWritable k (rules_at k rules)
  unfolding rules_at
  rules_at-IsWritable rules k a = elim (Option-cases (lookup k rules)) [
    | inl e ↦ rw e (record { global = λ h. refl; named = λ h. refl })
    | inr (none, e) ↦ rw e (record { global = λ h. refl; named = λ h. refl })
    | inr (some r, e) ↦ rw e (
        All-lookup
          (λ (e : Str × Option ScopeRules). (r : ScopeRules) → e.1 ≡ some r → IsWritable e.0 r) k
          (some r) rules a e r refl)
  ]

  -- What is written of a loadable configuration can be read and loaded.
  wire-loads :
      (c : Configuration) (file : ConfigFile)
      → IsLoadable glob c
      → Unique c.rules
      → AllWritable c.rules
      → wire c ≡ ok file
      → (back : Configuration) × (configuration file ≡ ok back)
        × (again : Configuration) × (normalize_config glob back ≡ ok again)
        × ((k : Str) → rules_at k again.rules ≡ rules_at k c.rules)
  unfolding Str-discrete
  wire-loads c file l u w h =
      let (file', written', back, e, hosts, _, version, same) = configuration-wire c u w in
      let read : configuration file ≡ ok back =
        subst (λ f. configuration f ≡ ok back) (ground (arith, h, written')) e in
      let (names, unique) =
        HasKeys-configuration IsScope file back refl (FileKeys-wire IsScope c file l.names h)
          read in
      let (again, loads, kept_rules) = normalize_config_succeeds glob back version (record {
        scopes = AreNormal-of_rules_at c.rules back.rules unique same l.scopes;
        names = names;
        hosts = subst AllHosts (sym hosts) l.hosts;
      }) in
      (back, read, again, loads, λ k. ap (rules_at k) kept_rules ∙ same k)

  rules_at-insert :
      (host k : Str) (r : ScopeRules) (rules : Map Str (Option ScopeRules))
      → rules_at k (insert host (some r) rules) ≡ (if host == k then r else rules_at k rules)
  unfolding rules_at
  rules_at-insert host k r rules = ground (arith, lookup-insert host k (some r) rules)

  -- Let the configuration be what an edit loads, with a place in the file for all of its rules, and
  -- let the edit leave a place for those of the host. If the edit writes a file, then the rules that
  -- it leaves have a normal form, the file can be read and loaded again, and what is loaded has this
  -- normal form as the rules of the host and the same rules as before for every other one.
  pub edit_scope-loads :
      (host : Str) (edit : ScopeRules → ScopeRules × Bool) (stored : Option Configuration)
      (config : Configuration)
      → (file : ConfigFile) → load_config_for_write glob stored ≡ ok config
      → Unique config.rules
      → AllWritable config.rules
      → ((r : ScopeRules) → IsWritable host r → IsWritable host (edit r).0)
      → edit_scope glob host edit config ≡ ok (some file)
      → (normal : ScopeRules) × (normalize_rules glob (edit (rules_at host config.rules)).0
          ≡ ok normal)
        × (back : Configuration) × (configuration file ≡ ok back)
        × (again : Configuration) × (normalize_config glob back ≡ ok again)
        × ((k : Str)
            → rules_at k again.rules ≡ (if host == k then normal else rules_at k config.rules))
  edit_scope-loads host edit stored config file loaded u writable fits h =
      let w = edit_scope-IsWritten glob host edit config file h in
      let fits' =
        IsWritable-normal glob host (edit (rules_at host config.rules)).0 w.normal w.normalized
          (fits _ (rules_at-IsWritable config.rules host writable)) in
      let (back, read, again, loads, same) =
        wire-loads (record config { rules = insert host (some w.normal) config.rules }) file
          (IsLoadable-of_IsWritten glob host edit config file w
            (load_config_for_write-IsLoadable glob stored config loaded))
          (insert-Unique host (some w.normal) config.rules u)
          (All-insert
            (λ (e : Str × Option ScopeRules). (r : ScopeRules) → e.1 ≡ some r → IsWritable e.0 r)
            host (some w.normal) config.rules (λ r is. subst (IsWritable host) (ground arith) fits')
            writable)
          w.stored in
      (
        w.normal,
        w.normalized,
        back,
        read,
        again,
        loads,
        λ k. same k ∙ rules_at-insert host k w.normal config.rules,
      )
