-- ===== src/App/Edits/Loaded.antt =====
-- What `normalizeConfig` returns can be loaded again.
use mathlib.Core.Path.{subst}
use ssh_forward.App.Config.{ConfigError, ScopeRules, normalize_rules, published_eq, remembered_eq}
use ssh_forward.App.Config.Reserved.{normalize_rules-KeepsOff}
use ssh_forward.App.Edits.{
  LoadError, invalid_host, invalid_scope, load_config_for_write, no_config, normalize_config,
  normalize_scopes, remember, unsupported_schema, validate_hosts,
}
use ssh_forward.App.Edits.Loadable.{
  AllHosts, AllKeys, IsLoadable, IsNormalScope, IsScope, validate_hosts-AllHosts,
}
use ssh_forward.App.HostTargets.{named}
use ssh_forward.App.Targets.{
  HostTarget, TargetError, check_arguments, invalid_target, validate_target,
}
use ssh_forward.App.Wire.{Configuration, config_schema_version}
use ssh_forward.Core.Desired.{Doublestar}
use ssh_forward.Core.Names.{valid_host_name}
use ssh_forward.Core.Types.{direction_eq, key_eq, state_eq, target_eq}
use ssh_forward.Prelude.{
  ==_refl, >>=-eq-ok, All, All-lookup, Bool, Bool-cases, Map, Option, Option-cases, Result,
  Result-cases, Str, [], ap, arith, bool_eq, err, false, has, if◌then◌else◌, inl, inr, insert,
  lookup, lookup-insert, nat_eq, none, not, ok, refl, some, str_eq, sym, true, ◌&&◌, ◌==◌, ◌>>=◌,
  ◌||◌, ◌∙◌, ◌∷◌, ◌≡◌,
}

or_right : (a b : Bool) → b ≡ true → (a || b) ≡ true
or_right a b h = ground arith

or_left : (a b : Bool) → a ≡ true → (a || b) ≡ true
or_left a b h = ground arith

or_of_not : (a b : Bool) → (not a && not b) ≡ false → (a || b) ≡ true
or_of_not a b h = ground arith

-- The rules are normal, and each of their keys has a host.

record IsNormal (glob : Doublestar) (before : Map Str HostTarget)
    (left : Map Str (Option ScopeRules) × Map Str HostTarget) : Type 0 where
  pub scopes : All (IsNormalScope glob) left.0
  pub hosted : All (λ (e : Str × Option ScopeRules). (e.0 == [] || has e.0 left.1) ≡ true) left.0
  pub grows : (k : Str) → has k before ≡ true → has k left.1 ≡ true

has-insert :
    (k j : Str) (t : HostTarget) (hosts : Map Str HostTarget)
    → has j (insert k t hosts) ≡ (k == j || has j hosts)
has-insert k j t hosts = ground (arith, lookup-insert k j t hosts)

has-remember :
    (k : Str) (hosts : Map Str HostTarget)
    → ((k == [] || has k (remember k hosts)) ≡ true)
      × ((j : Str) → has j hosts ≡ true → has j (remember k hosts) ≡ true)
unfolding remember
has-remember k hosts =
    let put = λ (j : Str). has-insert k j (named k).1 hosts in
    elim (Bool-cases (not (k == []) && not (has k hosts))) [
      | inl e ↦ rw e (
        or_right (k == []) _ (put k ∙ or_left (k == k) _ (==_refl k)),
        λ j h. put j ∙ or_right (k == j) _ h,
      )
      | inr e ↦ rw e (or_of_not (k == []) (has k hosts) e, λ j h. h)
    ]

IsNormal-cons :
    (glob : Doublestar) (k : Str) (rules : Option ScopeRules) (before : Map Str HostTarget)
    → (left : Map Str (Option ScopeRules) × Map Str HostTarget)
    → ((r : ScopeRules) → rules ≡ some r → normalize_rules glob r ≡ ok r)
    → IsNormal glob (remember k before) left
    → IsNormal glob before ((k, rules) ∷ left.0, left.1)
IsNormal-cons glob k rules before left normal n =
    let put = has-remember k before in
    record {
      scopes = (normal, n.scopes);
      hosted = (ground (arith, put.0, n.grows k), n.hosted);
      grows = λ j h. n.grows j (put.1 j h);
    }

ok-injective : {A : Type 0} (a b : A) → ◌≡◌ {A = Result LoadError A} (ok a) (ok b) → a ≡ b
ok-injective a b h = ground arith

scopes_step :
    (glob : Doublestar) (k : Str) (rules : ScopeRules) (rest : Map Str (Option ScopeRules))
    → (hosts : Map Str HostTarget) (r : Result ConfigError ScopeRules)
    → normalize_rules glob rules ≡ r
    → normalize_scopes glob ((k, some rules) ∷ rest) hosts
      ≡ elim r as (λ _. Result LoadError (Map Str (Option ScopeRules) × Map Str HostTarget)) [
        | err e ↦ err (invalid_scope e)
        | ok normal ↦ normalize_scopes glob rest (remember k hosts) >>= λ later.
            ok ((k, some normal) ∷ later.0, later.1)
      ]
unfolding normalize_scopes
scopes_step glob k rules rest hosts (err e) c = rw (normalize_scopes, c) refl
scopes_step glob k rules rest hosts (ok normal) c = rw (normalize_scopes, c) refl

normalize_scopes-IsNormal :
    (glob : Doublestar) (rules : Map Str (Option ScopeRules)) (hosts : Map Str HostTarget)
    → (left : Map Str (Option ScopeRules) × Map Str HostTarget)
    → normalize_scopes glob rules hosts ≡ ok left
    → IsNormal glob hosts left
unfolding normalize_scopes
normalize_scopes-IsNormal glob [] hosts left h =
    subst (IsNormal glob hosts) (ok-injective ([], hosts) left h)
      (record { scopes = tt; hosted = tt; grows = λ k c. c })
normalize_scopes-IsNormal glob ((k, none) ∷ rest) hosts left h =
    let (later, e, s) = >>=-eq-ok (normalize_scopes glob rest (remember k hosts)) _ h in
    subst (IsNormal glob hosts) (ok-injective ((k, none) ∷ later.0, later.1) left s) (
      IsNormal-cons glob k none hosts later (λ r c. absurd (ground arith))
        (normalize_scopes-IsNormal glob rest (remember k hosts) later e))
normalize_scopes-IsNormal glob ((k, some rules) ∷ rest) hosts left h =
    elim (Result-cases (normalize_rules glob rules)) [
      | inl (e, c) ↦ absurd (ground (arith, h, scopes_step glob k rules rest hosts (err e) c))
      | inr (normal, c) ↦
          let (later, e, s) =
            >>=-eq-ok (normalize_scopes glob rest (remember k hosts)) _
              (sym (scopes_step glob k rules rest hosts (ok normal) c) ∙ h) in
          subst (IsNormal glob hosts) (ok-injective ((k, some normal) ∷ later.0, later.1) left s) (
            IsNormal-cons glob k (some normal) hosts later
              (λ r same.
                subst (λ x. normalize_rules glob x ≡ ok x) (ground arith)
                  (normalize_rules-KeepsOff glob rules normal c).1)
              (normalize_scopes-IsNormal glob rest (remember k hosts) later e))
    ]

-- The last step of `normalizeConfig`.
abbrev checked :
    Configuration
    → Map Str (Option ScopeRules) × Map Str HostTarget
    → Option TargetError
    → Result LoadError Configuration
checked c left o = elim o [
  | some problem ↦ err (invalid_host problem)
  | none ↦ ok (record c { rules = left.0; hosts = left.1 })
]

wrong_version :
    (glob : Doublestar) (c : Configuration)
    → (c.schema_version == config_schema_version) ≡ false
    → normalize_config glob c ≡ err (unsupported_schema c.schema_version)
unfolding normalize_config
wrong_version glob c h = rw (normalize_config, h) refl

right_version :
    (glob : Doublestar) (c : Configuration)
    → (c.schema_version == config_schema_version) ≡ true
    → normalize_config glob c
      ≡ (normalize_scopes glob c.rules c.hosts >>= λ left. checked c left (validate_hosts left.1))
unfolding normalize_config
right_version glob c h = rw (normalize_config, h) refl

valid_named : (k : Str) (t : HostTarget) → validate_target k t ≡ none → valid_host_name k ≡ true
unfolding validate_target
valid_named k t h = elim (Bool-cases (valid_host_name k)) [
  | inl valid ↦ valid
  | inr invalid ↦ absurd (
      ground (
        arith,
        subst
            (λ b.
              (if not b || not (valid_host_name t.target)
                then some invalid_target
                else check_arguments t.arguments)
              ≡ none)
            invalid h,
      ))
]

IsScope-of_hosted :
    (rules : Map Str (Option ScopeRules)) (hosts : Map Str HostTarget)
    → All (λ (e : Str × Option ScopeRules). (e.0 == [] || has e.0 hosts) ≡ true) rules
    → AllHosts hosts
    → AllKeys IsScope rules
IsScope-of_hosted [] hosts a v = tt
IsScope-of_hosted ((k, r) ∷ rest) hosts a v = (
  elim (Option-cases (lookup k hosts)) [
    | inr (t, found) ↦ or_right (k == []) _ (
        valid_named k t
          (All-lookup (λ (e : Str × HostTarget). validate_target e.0 e.1 ≡ none) k t hosts v found))
    | inl absent ↦ or_left (k == []) _ (ground (arith, a.0, absent))
  ],
  IsScope-of_hosted rest hosts a.1 v,
)

IsLoadable-of_IsNormal :
    (glob : Doublestar) (c : Configuration)
    → (left : Map Str (Option ScopeRules) × Map Str HostTarget) → IsNormal glob c.hosts left
    → AllHosts left.1
    → IsLoadable glob (record c { rules = left.0; hosts = left.1 })
IsLoadable-of_IsNormal glob c left n v = record {
  scopes = n.scopes;
  names = IsScope-of_hosted left.0 left.1 n.hosted v;
  hosts = v;
}

-- A configuration that was loaded is loadable.
pub normalize_config-IsLoadable :
    (glob : Doublestar) (c out : Configuration)
    → normalize_config glob c ≡ ok out
    → IsLoadable glob out
normalize_config-IsLoadable glob c out h =
    elim (Bool-cases (c.schema_version == config_schema_version)) [
      | inr other ↦ absurd (ground (arith, h, wrong_version glob c other))
      | inl same ↦
          let (left, e, s) =
            >>=-eq-ok (normalize_scopes glob c.rules c.hosts) _
              (sym (right_version glob c same) ∙ h) in
          elim (Option-cases (validate_hosts left.1)) [
            | inr (problem, v) ↦ absurd (ground (arith, s, ap (checked c left) v))
            | inl v ↦
                subst (IsLoadable glob) (ok-injective _ out (sym (ap (checked c left) v) ∙ s)) (
                  IsLoadable-of_IsNormal glob c left
                    (normalize_scopes-IsNormal glob c.rules c.hosts left e)
                    ((validate_hosts-AllHosts left.1).0 v))
          ]
    ]

-- What an edit starts from is loadable.
pub load_config_for_write-IsLoadable :
    (glob : Doublestar) (stored : Option Configuration) (config : Configuration)
    → load_config_for_write glob stored ≡ ok config
    → IsLoadable glob config
unfolding load_config_for_write
load_config_for_write-IsLoadable glob none config h =
    subst (IsLoadable glob) (ok-injective no_config config h)
      (record { scopes = tt; names = tt; hosts = tt })
load_config_for_write-IsLoadable glob (some stored) config h =
    normalize_config-IsLoadable glob stored config h
