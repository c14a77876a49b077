-- ===== src/App/Config/Reserved.antt =====
-- The rules that the configuration accepts.
use mathlib.Core.Path.{subst}
use ssh_forward.App.Config.{
  ConfigError, ScopeRules, first_reserved, normalize_rules, prefix_config, published_eq,
  remembered_eq, validate_local_port_reservations,
}
use ssh_forward.Core.Desired.{Doublestar}
use ssh_forward.Core.Names.{
  normalize_ignored_apps, normalize_working_directory_rules, valid_ignored_app,
  valid_working_directory_rule,
}
use ssh_forward.Core.Names.Laws.{normalize_rule_names_idem}
use ssh_forward.Core.Normalize.{
  IntentError, normalize_published_forwards, normalize_remembered_forwards,
}
use ssh_forward.Core.Normalize.Ports.{normalize_published-IsCanonical, normalize_remembered_idem}
use ssh_forward.Core.Types.{
  PublishedForward, RememberedForward, direction_eq, key_eq, state_eq, target_eq,
}
use ssh_forward.Prelude.{
  >>=-eq-ok, All, List, Result, [], arith, bool_eq, contains, err, false, map, nat_eq, none, ok,
  some, str_eq, ℕ, ◌∷◌, ◌≡◌,
}

-- An import that insists on its local port does not take that of a publication.
abbrev pub KeepsOff : List ℕ → List RememberedForward → Type 0
KeepsOff reserved =
    All
      (λ (f : RememberedForward). f.allow_fallback ≡ false → contains reserved f.local_port ≡ false)

KeepsOff-of_first :
    (reserved : List ℕ) (fs : List RememberedForward)
    → first_reserved reserved fs ≡ none
    → KeepsOff reserved fs
unfolding first_reserved
KeepsOff-of_first reserved [] h = tt
KeepsOff-of_first reserved (f ∷ fs) h =
    (λ k. ground arith, KeepsOff-of_first reserved fs (ground arith))

prefix_config-ok :
    {T : Type 0} (r : Result IntentError T) (value : T) → prefix_config r ≡ ok value → r ≡ ok value
prefix_config-ok (ok v) value h = ground arith
prefix_config-ok (err e) value h = absurd (ground arith)

-- Every list is in its normal form, and no port is refused.
pub record IsAccepted (glob : Doublestar) (rules : ScopeRules) : Type 0 where
  pub forwards : normalize_remembered_forwards rules.forwards ≡ ok rules.forwards
  pub published : normalize_published_forwards rules.published ≡ ok rules.published
  pub directories : normalize_working_directory_rules glob rules.directories ≡ ok rules.directories
  pub ignored : normalize_ignored_apps rules.ignored_apps ≡ ok rules.ignored_apps
  pub free : validate_local_port_reservations rules.forwards rules.published ≡ none

-- The last step of the normalisation.
abbrev finish : ScopeRules → Result ConfigError ScopeRules
finish rules = elim (validate_local_port_reservations rules.forwards rules.published) [
  | some e ↦ err e
  | none ↦ ok rules
]

finish-ok :
    (rules out : ScopeRules)
    → finish rules ≡ ok out
    → (rules ≡ out) × (validate_local_port_reservations rules.forwards rules.published ≡ none)
finish-ok rules out h = (ground arith, ground arith)

-- Each list is the normal form of the one before, and no port is refused.
pub record IsNormalOf (glob : Doublestar) (rules out : ScopeRules) : Type 0 where
  pub forwards : normalize_remembered_forwards rules.forwards ≡ ok out.forwards
  pub published : normalize_published_forwards rules.published ≡ ok out.published
  pub directories : normalize_working_directory_rules glob rules.directories ≡ ok out.directories
  pub ignored : normalize_ignored_apps rules.ignored_apps ≡ ok out.ignored_apps
  pub free : validate_local_port_reservations out.forwards out.published ≡ none

pub normalize_rules-IsNormalOf :
    (glob : Doublestar) (rules out : ScopeRules)
    → normalize_rules glob rules ≡ ok out
    → IsNormalOf glob rules out
unfolding normalize_rules
normalize_rules-IsNormalOf glob rules out h =
    let (forwards, ef, h1) =
      >>=-eq-ok (prefix_config (normalize_remembered_forwards rules.forwards)) _ h in
    let (published, ep, h2) =
      >>=-eq-ok (prefix_config (normalize_published_forwards rules.published)) _ h1 in
    let (directories, ed, h3) =
      >>=-eq-ok (prefix_config (normalize_working_directory_rules glob rules.directories)) _ h2 in
    let (ignored, eg, h4) =
      >>=-eq-ok (prefix_config (normalize_ignored_apps rules.ignored_apps)) _ h3 in
    let all : ScopeRules = record {
      forwards = forwards;
      published = published;
      directories = directories;
      ignored_apps = ignored;
    } in
    let (same, free) = finish-ok all out h4 in
    subst (IsNormalOf glob rules) same (record {
      forwards = prefix_config-ok _ _ ef;
      published = prefix_config-ok _ _ ep;
      directories = prefix_config-ok _ _ ed;
      ignored = prefix_config-ok _ _ eg;
      free = free;
    })

normalize_rules-IsAccepted :
    (glob : Doublestar) (rules out : ScopeRules)
    → normalize_rules glob rules ≡ ok out
    → IsAccepted glob out
unfolding normalize_working_directory_rules normalize_ignored_apps
normalize_rules-IsAccepted glob rules out h =
    let n = normalize_rules-IsNormalOf glob rules out h in
    record {
      forwards = normalize_remembered_idem rules.forwards out.forwards n.forwards;
      published = (normalize_published-IsCanonical rules.published out.published n.published).1;
      directories =
          normalize_rule_names_idem (valid_working_directory_rule glob) rules.directories
            out.directories n.directories;
      ignored =
          normalize_rule_names_idem valid_ignored_app rules.ignored_apps out.ignored_apps n.ignored;
      free = n.free;
    }

-- Where the rules of a scope are accepted, no import without fallback has the local port of a
-- publication of this scope, and a second normalisation returns the same rules.
pub normalize_rules-KeepsOff :
    (glob : Doublestar) (rules out : ScopeRules)
    → normalize_rules glob rules ≡ ok out
    → KeepsOff (map (λ (f : PublishedForward). f.local_port) out.published) out.forwards
      × (normalize_rules glob out ≡ ok out)
unfolding normalize_rules validate_local_port_reservations
normalize_rules-KeepsOff glob rules out h =
    let a = normalize_rules-IsAccepted glob rules out h in
    (
      KeepsOff-of_first (map (λ (f : PublishedForward). f.local_port) out.published) out.forwards
          a.free,
      rw (a.forwards, a.published, a.directories, a.ignored, a.free),
    )
