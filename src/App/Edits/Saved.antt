-- ===== src/App/Edits/Saved.antt =====
-- An edit of rules, from one load of the configuration to the next.
use mathlib.Core.Path.{subst}
-- What the normalisation of a scope empties or leaves empty.
use ssh_forward.App.Config.{ConfigError, ScopeRules, normalize_rules, published_eq, remembered_eq}
use ssh_forward.App.Config.Reserved.{normalize_rules-IsNormalOf, normalize_rules-KeepsOff}
use ssh_forward.App.Edits.{
  RuleEditError, change_scope, edit_config, edit_scope, invalid_host_name, refused, unwritable,
}
use ssh_forward.App.Edits.Loadable.{IsLoadable, IsNormalScope, IsScope}
use ssh_forward.App.Wire.{ConfigFile, Configuration, WireError, rules_at, wire}
use ssh_forward.App.Wire.Written.{IsWritable}
use ssh_forward.Core.Desired.{Doublestar}
use ssh_forward.Core.Names.{normalize_ignored_apps, normalize_rule_names, valid_host_name}
use ssh_forward.Core.Normalize.{normalize_forwards, normalize_published_forwards}
use ssh_forward.Core.Types.{direction_eq, key_eq, state_eq, target_eq}
use ssh_forward.Prelude.{
  All-insert, Bool, Bool-cases, Option, Result, Result-cases, Str, [], ap, arith, bool_eq, err,
  false, if◌then◌else◌, inl, inr, insert, nat_eq, none, not, ok, refl, some, str_eq, sym, true,
  ◌&&◌, ◌==◌, ◌∙◌, ◌≡◌,
}

pub IsWritable-normal :
    (glob : Doublestar) (host : Str) (rules normal : ScopeRules)
    → normalize_rules glob rules ≡ ok normal
    → IsWritable host rules
    → IsWritable host normal
unfolding normalize_published_forwards normalize_forwards normalize_ignored_apps
    normalize_rule_names
IsWritable-normal glob host rules normal h w =
    let n = normalize_rules-IsNormalOf glob rules normal h in
    record {
      global = λ here.
          let e : ok [] ≡ ok normal.published =
            subst (λ ps. normalize_published_forwards ps ≡ ok normal.published) (w.global here)
              n.published in
          ground arith;
      named = λ other.
          let e : ok [] ≡ ok normal.ignored_apps =
            subst (λ ps. normalize_ignored_apps ps ≡ ok normal.ignored_apps) (w.named other)
              n.ignored in
          ground arith;
    }

-- What an edit that writes a file has done.
pub record IsWritten (glob : Doublestar) (host : Str) (edit : ScopeRules → ScopeRules × Bool)
    (config : Configuration) (file : ConfigFile) : Type 0 where
  pub normal : ScopeRules
  pub name : IsScope host
  pub normalized : normalize_rules glob (edit (rules_at host config.rules)).0 ≡ ok normal
  pub stored : wire (record config { rules = insert host (some normal) config.rules }) ≡ ok file

module _ (glob : Doublestar) (host : Str) (edit : ScopeRules → ScopeRules × Bool)
    (config : Configuration) where
  abbrev edited : ScopeRules × Bool
  edited = edit (rules_at host config.rules)

  -- The end of an edit that writes, given what `wire` returns.
  abbrev ending : Result WireError ConfigFile → Result RuleEditError (Option ConfigFile)
  ending r = elim r [ err e ↦ err (unwritable e) | ok file ↦ ok (some file) ]

  runs :
      (refuses changed : Bool) (r : Result ConfigError ScopeRules)
      → (not (host == []) && not (valid_host_name host)) ≡ refuses
      → edited.1 ≡ changed
      → normalize_rules glob edited.0 ≡ r
      → edit_scope glob host edit config ≡ (
          if refuses
          then err invalid_host_name
          else if not changed
          then ok none
          else elim r as (λ _. Result RuleEditError (Option ConfigFile)) [
            | err e ↦ err (refused e)
            | ok normal ↦
                elim (wire (record config { rules = insert host (some normal) config.rules }))
                  as (λ _. Result RuleEditError (Option ConfigFile)) [
                    | err e ↦ err (unwritable e)
                    | ok file ↦ ok (some file)
                  ]
          ])
  unfolding edit_scope edit_config change_scope
  runs true changed r n c e = simp (edit_scope, n)
  runs false false r n c e = simp (edit_scope, edit_config, change_scope, n, c)
  runs false true (err x) n c e = simp (edit_scope, edit_config, change_scope, n, c, e)
  runs false true (ok x) n c e = simp (edit_scope, edit_config, change_scope, n, c, e)

  pub edit_scope-IsWritten :
      (file : ConfigFile)
      → edit_scope glob host edit config ≡ ok (some file)
      → IsWritten glob host edit config file
  edit_scope-IsWritten file h = elim (Bool-cases (not (host == []) && not (valid_host_name host))) [
    | inl n ↦ absurd (ground (arith, h, runs true edited.1 _ n refl refl))
    | inr n ↦ elim (Bool-cases edited.1) [
      | inr c ↦ absurd (ground (arith, h, runs false false _ n c refl))
      | inl c ↦ elim (Result-cases (normalize_rules glob edited.0)) [
        | inl (x, e) ↦ absurd (ground (arith, h, runs false true (err x) n c e))
        | inr (normal, e) ↦
            let ends = sym (runs false true (ok normal) n c e) ∙ h in
            elim (Result-cases
              (wire (record config { rules = insert host (some normal) config.rules }))) [
                | inl (x, w) ↦ absurd (ground (arith, ends, ap ending w))
                | inr (out, w) ↦ record {
                  normal = normal;
                  name = ground (arith, n);
                  normalized = e;
                  stored = w ∙ ground (arith, ends, ap ending w);
                }
              ]
      ]
    ]
  ]

  -- What the next load reads.
  pub IsLoadable-of_IsWritten :
      (file : ConfigFile)
      → (w : IsWritten glob host edit config file) → IsLoadable glob config
      → IsLoadable glob (record config { rules = insert host (some w.normal) config.rules })
  IsLoadable-of_IsWritten file w l = record {
    scopes =
        All-insert (IsNormalScope glob) host (some w.normal) config.rules
          (λ r same.
            subst (λ x. normalize_rules glob x ≡ ok x) (ground arith)
              (normalize_rules-KeepsOff glob edited.0 w.normal w.normalized).1)
          l.scopes;
    names = All-insert (λ e. IsScope e.0) host (some w.normal) config.rules w.name l.names;
    hosts = l.hosts;
  }
