-- ===== src/App/Edits/Remembered.antt =====
-- What `EditRememberedForward` does to the rules that are loaded next.
use ssh_forward.App.Config.{
  ConfigError, ScopeRules, edit_rule, item_at, published_eq, remembered_eq,
}
use ssh_forward.App.Config.Edited.{edit_rule_adds, edit_rule_removes, rule_at}
use ssh_forward.App.Config.Reserved.{IsNormalOf, normalize_rules-IsNormalOf}
use ssh_forward.App.Edits.{
  change_forwards, edit_remembered_forward, edit_scope, load_config_for_write, normalize_config,
  normalized_remembered_forward, refused,
}
use ssh_forward.App.Edits.Loaded.{load_config_for_write-IsLoadable}
use ssh_forward.App.Edits.Reload.{edit_scope-loads, rules_at-normal}
use ssh_forward.App.Wire.{ConfigFile, Configuration, configuration, rules_at}
use ssh_forward.App.Wire.Written.{AllWritable}
use ssh_forward.Core.Desired.{Doublestar}
use ssh_forward.Core.Normalize.{
  normalize_forwards, normalize_loop, normalize_remembered_forward, normalize_remembered_forwards,
}
use ssh_forward.Core.Normalize.Laws.{normalize_sound}
use ssh_forward.Core.Normalize.Loop.{all_defaults, all_defaults-cons, all_defaults-ne-nil}
use ssh_forward.Core.Normalize.Ports.{normalize_remembered-IsCanonical}
use ssh_forward.Core.Types.{
  RememberedForward, direction_eq, key_eq, remembered_with_defaults, state_eq, target_eq,
}
use ssh_forward.Prelude.{
  ==_refl, >>=-eq-ok, Bool, Bool-cases, Distinct, Distinct-of_Increasing, List, Option,
  Result-cases, Str, Unique, [], ap, arith, bool_eq, by_source, bytes, contains, contains-sort_func,
  err, false, if◌then◌else◌, inl, inr, insert_sorted, lookup, map, nat_eq, none, ok, refl, some,
  sort_func, str_eq, sym, true, ℕ, ◌==◌, ◌>>=◌, ◌∙◌, ◌∷◌, ◌≡◌,
}

abbrev remote_of : RememberedForward → ℕ
remote_of f = f.remote_port

-- The rule of a remote port.
abbrev pub forward_at : ℕ → List RememberedForward → Option RememberedForward
forward_at = rule_at remote_of

abbrev defaulted : Option RememberedForward → Option RememberedForward
defaulted none = none
defaulted (some f) = some (remembered_with_defaults f)

forward_at-insert_sorted :
    (f : RememberedForward) (fs : List RememberedForward) (k : ℕ)
    → contains (map remote_of fs) f.remote_port ≡ false
    → forward_at k (insert_sorted (by_source remote_of) f fs)
      ≡ (if f.remote_port == k then some f else forward_at k fs)
unfolding rule_at insert_sorted contains
forward_at-insert_sorted f [] k h = refl
forward_at-insert_sorted f (g ∷ fs) k h = ground (arith, forward_at-insert_sorted f fs k)

forward_at-sorted :
    (fs : List RememberedForward) (k : ℕ)
    → Distinct (map remote_of fs)
    → forward_at k (sort_func (by_source remote_of) fs) ≡ forward_at k fs
unfolding rule_at sort_func
forward_at-sorted [] k d = refl
forward_at-sorted (f ∷ fs) k d = ground (
  arith,
  forward_at-insert_sorted f (sort_func (by_source remote_of) fs) k
      (contains-sort_func (by_source remote_of) remote_of fs f.remote_port ∙ d.0),
  forward_at-sorted fs k d.1,
)

defaults_cons :
    (f : RememberedForward) (fs : List RememberedForward) (g : RememberedForward)
    → (ready : List RememberedForward)
    → all_defaults normalize_remembered_forward (f ∷ fs) ≡ ok (g ∷ ready)
    → (normalize_remembered_forward f ≡ ok g)
      × (all_defaults normalize_remembered_forward fs ≡ ok ready)
defaults_cons =
    all_defaults-cons normalize_remembered_forward remote_of (λ f. f.local_port) (bytes "remote")
      (bytes "local")

defaults_keeps :
    (f g : RememberedForward)
    → normalize_remembered_forward f ≡ ok g
    → (g ≡ remembered_with_defaults f) × (g.remote_port ≡ f.remote_port)
unfolding normalize_remembered_forward remembered_with_defaults
defaults_keeps f g h = (ground arith, ground arith)

forward_at-defaults :
    (fs ready : List RememberedForward) (k : ℕ)
    → all_defaults normalize_remembered_forward fs ≡ ok ready
    → forward_at k ready ≡ defaulted (forward_at k fs)
unfolding all_defaults rule_at
forward_at-defaults [] [] k h = refl
forward_at-defaults [] (g ∷ ready) k h = absurd (ground arith)
forward_at-defaults (f ∷ fs) [] k h = absurd (
    all_defaults-ne-nil normalize_remembered_forward remote_of (λ f. f.local_port) (bytes "remote")
      (bytes "local") f fs h)
forward_at-defaults (f ∷ fs) (g ∷ ready) k h =
    let (first, rest) = defaults_cons f fs g ready h in
    let (is, port) = defaults_keeps f g first in
    let same : (g.remote_port == k) ≡ (f.remote_port == k) = ap (λ p. p == k) port in
    elim (Bool-cases (f.remote_port == k)) [
      | inl e ↦ rw (same, e) (ap some is)
      | inr e ↦ rw (same, e) (forward_at-defaults fs ready k rest)
    ]

forward_at-normal :
    (fs out : List RememberedForward) (k : ℕ)
    → normalize_remembered_forwards fs ≡ ok out
    → forward_at k out ≡ defaulted (forward_at k fs)
unfolding normalize_remembered_forwards
forward_at-normal fs out k h =
    let (ready, c, o) =
      normalize_sound normalize_remembered_forward remote_of (λ f. f.local_port) (bytes "remote")
        (bytes "local") fs out h in
    ap (forward_at k) o
    ∙ forward_at-sorted ready k c.distinct_sources
    ∙ forward_at-defaults fs ready k c.defaulted

-- An edit of the imports, read by ports; `r` are the rules that were loaded.
forward_at-change_forwards :
    (r : ScopeRules) (f : RememberedForward) (adding : Bool) (k : ℕ)
    → Distinct (map remote_of r.forwards)
    → forward_at k (change_forwards f adding r).0.forwards
      ≡ (if f.remote_port == k then (if adding then some f else none) else forward_at k r.forwards)
forward_at-change_forwards r f true k d = (edit_rule_adds remote_of r.forwards f k).0
forward_at-change_forwards r f false k d = (edit_rule_removes remote_of r.forwards f k d).0

defaults_idem :
    (f : RememberedForward)
    → remembered_with_defaults (remembered_with_defaults f) ≡ remembered_with_defaults f
unfolding remembered_with_defaults
defaults_idem f = elim (Bool-cases (f.local_port == 0)) [
  | inl e ↦ elim (Bool-cases (f.remote_port == 0)) [
    | inl z ↦ simp (remembered_with_defaults, e, z)
    | inr z ↦ simp (remembered_with_defaults, e, z)
  ]
  | inr e ↦ simp (remembered_with_defaults, e)
]

one_normal :
    (raw f : RememberedForward)
    → normalized_remembered_forward raw ≡ ok f
    → f ≡ remembered_with_defaults raw
unfolding normalized_remembered_forward normalize_remembered_forwards normalize_forwards
    normalize_loop normalize_remembered_forward sort_func insert_sorted item_at contains lookup
one_normal raw f h = elim (Bool-cases (raw.remote_port == 0)) [
  | inl e ↦ absurd (ground (arith, h, e))
  | inr e ↦ ground (arith, h, e)
]

-- The forward that is normalised alone has its defaults.
normalized-defaulted :
    (raw f : RememberedForward)
    → normalized_remembered_forward raw ≡ ok f
    → defaulted (some f) ≡ some f
normalized-defaulted raw f h = ap some (rw (one_normal raw f h) (defaults_idem raw))

module _ (glob : Doublestar) where
  loaded-IsNormalOf :
      (stored : Option Configuration) (config : Configuration) (host : Str)
      → load_config_for_write glob stored ≡ ok config
      → IsNormalOf glob (rules_at host config.rules) (rules_at host config.rules)
  loaded-IsNormalOf stored config host h =
      normalize_rules-IsNormalOf glob (rules_at host config.rules) (rules_at host config.rules) (
        rules_at-normal glob config.rules host
          (load_config_for_write-IsLoadable glob stored config h).scopes)

  forward_at-edited :
      (r normal : ScopeRules) (f : RememberedForward) (adding : Bool) (k : ℕ)
      → IsNormalOf glob r r
      → IsNormalOf glob (change_forwards f adding r).0 normal
      → defaulted (some f) ≡ some f
      → forward_at k normal.forwards ≡ (
          if f.remote_port == k then (if adding then some f else none) else forward_at k r.forwards)
  forward_at-edited r normal f adding k own edited full =
      let distinct =
        Distinct-of_Increasing remote_of r.forwards
          (normalize_remembered-IsCanonical r.forwards r.forwards own.forwards).ascending in
      ground (
        arith,
        forward_at-normal (change_forwards f adding r).0.forwards normal.forwards k edited.forwards,
        forward_at-change_forwards r f adding k distinct,
        forward_at-normal r.forwards r.forwards k own.forwards,
        full,
      )

  edit_fails :
      (host : Str) (raw : RememberedForward) (adding : Bool) (config : Configuration)
      → (e : ConfigError) → normalized_remembered_forward raw ≡ err e
      → edit_remembered_forward glob host raw adding config ≡ err (refused e)
  unfolding edit_remembered_forward
  edit_fails host raw adding config e c = rw (edit_remembered_forward, c) refl

  edit_runs :
      (host : Str) (raw : RememberedForward) (adding : Bool) (config : Configuration)
      → (f : RememberedForward) → normalized_remembered_forward raw ≡ ok f
      → edit_remembered_forward glob host raw adding config ≡ (
          edit_scope glob host (change_forwards f adding) config >>= λ file.
          ok ((edit_rule remote_of (rules_at host config.rules).forwards f adding).1, file))
  unfolding edit_remembered_forward
  edit_runs host raw adding config f c = rw (edit_remembered_forward, c) refl

  edits :
      (host : Str) (raw out : RememberedForward) (adding : Bool) (config : Configuration)
      → (file : ConfigFile) (f : RememberedForward) → normalized_remembered_forward raw ≡ ok f
      → edit_remembered_forward glob host raw adding config ≡ ok (out, some file)
      → edit_scope glob host (change_forwards f adding) config ≡ ok (some file)
  unfolding edit_remembered_forward
  edits host raw out adding config file f c h =
      let (written', e, s) =
        >>=-eq-ok (edit_scope glob host (change_forwards f adding) config) _
          (sym (edit_runs host raw adding config f c) ∙ h) in
      e ∙ ap ok (ground (arith, s))

  -- Let the configuration be what an edit loads, with a place in the file for all of its rules. If
  -- EditRememberedForward changes the file, then the file can be loaded again, and the next load finds
  -- under the remote port of the forward, with its defaults, this forward or none, as was asked for,
  -- under every other remote port of the host what was there, and the same rules for every other host.
  pub edit_remembered_forward_lem :
      (host : Str) (raw out : RememberedForward) (adding : Bool) (stored : Option Configuration)
      (config : Configuration)
      → (file : ConfigFile) → load_config_for_write glob stored ≡ ok config
      → Unique config.rules
      → AllWritable config.rules
      → edit_remembered_forward glob host raw adding config ≡ ok (out, some file)
      → (f : RememberedForward) × (normalized_remembered_forward raw ≡ ok f)
        × (back : Configuration) × (configuration file ≡ ok back)
        × (again : Configuration) × (normalize_config glob back ≡ ok again)
        × ((k : ℕ)
            → forward_at k (rules_at host again.rules).forwards ≡ (
                if f.remote_port == k
                then (if adding then some f else none)
                else forward_at k (rules_at host config.rules).forwards))
        × ((other : Str)
            → (host == other) ≡ false
            → rules_at other again.rules ≡ rules_at other config.rules)
  edit_remembered_forward_lem host raw out adding stored config file loaded u w h =
      elim (Result-cases (normalized_remembered_forward raw)) [
        | inl (e, c) ↦ absurd (ground (arith, h, edit_fails host raw adding config e c))
        | inr (f, c) ↦
            let written' = edits host raw out adding config file f c h in
            let (normal, n, back, read, again, loads, same) =
              edit_scope-loads glob host (change_forwards f adding) stored config file loaded u w
                (λ r v. record { global = v.global; named = v.named }) written' in
            let here : rules_at host again.rules ≡ normal =
              same host ∙ ground (arith, ==_refl host) in
            (
              f,
              c,
              back,
              read,
              again,
              loads,
              λ k.
                  ap (λ r. forward_at k r.forwards) here
                  ∙ forward_at-edited (rules_at host config.rules) normal f adding k
                      (loaded-IsNormalOf stored config host loaded)
                      (normalize_rules-IsNormalOf glob _ normal n) (normalized-defaulted raw f c),
              λ other apart. same other ∙ ground (arith, apart),
            )
      ]
