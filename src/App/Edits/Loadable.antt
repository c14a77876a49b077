-- ===== src/App/Edits/Loadable.antt =====
-- The configurations that `normalizeConfig` accepts.
use ssh_forward.App.Config.{ScopeRules, normalize_rules, published_eq, remembered_eq}
use ssh_forward.App.Edits.{
  LoadError, invalid_host, normalize_config, normalize_scopes, remember, validate_hosts,
}
use ssh_forward.App.HostTargets.{named}
use ssh_forward.App.Targets.{HostTarget, check_arguments, validate_target}
use ssh_forward.App.Wire.{Configuration, config_schema_version}
use ssh_forward.Core.Desired.{Doublestar}
use ssh_forward.Core.Names.{valid_host_name}
use ssh_forward.Core.Types.{direction_eq, key_eq, state_eq, target_eq}
use ssh_forward.Prelude.{
  All, All-insert, Bool-cases, Map, Option, Result, Str, [], ap, arith, bool_eq, err, has, inl, inr,
  nat_eq, none, not, ok, or_else, refl, some, str_eq, true, ◌&&◌, ◌==◌, ◌||◌, ◌↔◌, ◌∷◌, ◌≡◌,
}

-- Every key of a map has the property.
abbrev pub AllKeys : {V : Type 0} → (Str → Type 0) → Map Str V → Type 0
AllKeys P = All (λ e. P e.0)

-- A key of the rules: that of all hosts, or a name that a host may have.
abbrev pub IsScope : Str → Type 0
IsScope k = (k == [] || valid_host_name k) ≡ true

or_else-none : {A : Type 0} (a b : Option A) → or_else a b ≡ none → (a ≡ none) × (b ≡ none)
or_else-none none b h = (refl, h)
or_else-none (some x) b h = absurd (ground arith)

abbrev pub AllHosts : Map Str HostTarget → Type 0
AllHosts = All (λ (e : Str × HostTarget). validate_target e.0 e.1 ≡ none)

pub validate_hosts-AllHosts :
    (hosts : Map Str HostTarget) → (validate_hosts hosts ≡ none) ↔ AllHosts hosts
unfolding validate_hosts
validate_hosts-AllHosts [] = (λ h. tt, λ a. refl)
validate_hosts-AllHosts ((k, t) ∷ rest) =
    let later = validate_hosts-AllHosts rest in
    (
      λ h.
          let (first, others) = or_else-none (validate_target k t) (validate_hosts rest) h in
          (first, later.0 others),
      λ a. rw a.0 (later.1 a.1),
    )

-- The rules of a scope, if there are any, are their own normal form.
abbrev pub IsNormalScope : Doublestar → Str × Option ScopeRules → Type 0
IsNormalScope glob e = (r : ScopeRules) → e.1 ≡ some r → normalize_rules glob r ≡ ok r

-- What a load accepts as it is, but for hosts that have rules and no entry of their own.
pub record IsLoadable (glob : Doublestar) (c : Configuration) : Type 0 where
  pub scopes : All (IsNormalScope glob) c.rules
  pub names : AllKeys IsScope c.rules
  pub hosts : AllHosts c.hosts

validate_named : (k : Str) → valid_host_name k ≡ true → validate_target k (named k).1 ≡ none
unfolding validate_target check_arguments
validate_named k h = ground (arith, h)

remember_valid :
    (k : Str) (hosts : Map Str HostTarget)
    → IsScope k
    → AllHosts hosts
    → AllHosts (remember k hosts)
unfolding remember
remember_valid k hosts v h = elim (Bool-cases (not (k == []) && not (has k hosts))) [
  | inr e ↦ rw e h
  | inl e ↦ rw e (
      All-insert (λ (e : Str × HostTarget). validate_target e.0 e.1 ≡ none) k (named k).1 hosts
        (validate_named k (ground arith)) h)
]

normalize_scopes_succeeds :
    (glob : Doublestar) (rules : Map Str (Option ScopeRules)) (hosts : Map Str HostTarget)
    → All (IsNormalScope glob) rules
    → AllKeys IsScope rules
    → AllHosts hosts
    → (hosts' : Map Str HostTarget) × (normalize_scopes glob rules hosts ≡ ok (rules, hosts'))
      × AllHosts hosts'
unfolding normalize_scopes
normalize_scopes_succeeds glob [] hosts a n h = (hosts, refl, h)
normalize_scopes_succeeds glob ((k, none) ∷ rest) hosts a n h =
    let (hosts', e, v) =
      normalize_scopes_succeeds glob rest (remember k hosts) a.1 n.1
        (remember_valid k hosts n.0 h) in
    (hosts', rw e refl, v)
normalize_scopes_succeeds glob ((k, some rules) ∷ rest) hosts a n h =
    let (hosts', e, v) =
      normalize_scopes_succeeds glob rest (remember k hosts) a.1 n.1
        (remember_valid k hosts n.0 h) in
    (hosts', simp (normalize_scopes, a.0 rules refl, e), v)

loaded_with :
    (glob : Doublestar) (c : Configuration) (hosts : Map Str HostTarget)
    → (c.schema_version == config_schema_version) ≡ true
    → normalize_scopes glob c.rules c.hosts ≡ ok (c.rules, hosts)
    → validate_hosts hosts ≡ none
    → normalize_config glob c ≡ ok (record c { hosts = hosts })
unfolding normalize_config
loaded_with glob c hosts version e v =
    rw (normalize_config, version, e)
      (ap
        (λ o. elim o as (λ _. Result LoadError Configuration) [
          | some problem ↦ err (invalid_host problem)
          | none ↦ ok (record c { hosts = hosts })
        ])
        v)

-- A loadable configuration is loaded, with the same rules.
pub normalize_config_succeeds :
    (glob : Doublestar) (c : Configuration)
    → c.schema_version ≡ config_schema_version
    → IsLoadable glob c
    → (out : Configuration) × (normalize_config glob c ≡ ok out) × (out.rules ≡ c.rules)
normalize_config_succeeds glob c version l =
    let (hosts', e, v) = normalize_scopes_succeeds glob c.rules c.hosts l.scopes l.names l.hosts in
    (
      record c { hosts = hosts' },
      loaded_with glob c hosts' (ground arith) e ((validate_hosts-AllHosts hosts').1 v),
      refl,
    )
