-- ===== src/App/Pool/Settled.antt =====
-- What a reload of the pool does.
use mathlib.Core.Path.{subst}
use ssh_forward.App.Pool.{
  ManagerOps, Pool, PoolError, ReloadInput, apply_targets, close_stale, config_unreadable,
  host_intent, is_stale, records_unreadable, records_unwritable, reload, request, reserved_ports,
  sync_managers, wanted_targets,
}
use ssh_forward.App.Pool.Applied.{IsApplied, Managed, apply_targets-IsApplied}
use ssh_forward.App.Pool.Reloaded.{lookup-close_stale, sorted_keys}
use ssh_forward.App.Targets.{DiscoveredHost, HostTarget}
use ssh_forward.App.Wire.{Configuration}
use ssh_forward.Core.Types.{ForwardingIntent, direction_eq, key_eq, state_eq, target_eq}
use ssh_forward.Prelude.{
  Bool, List, Map, Option, Option-cases, Str, Unique, ap, arith, bool_eq, contains, false, has,
  if◌then◌else◌, inl, inr, keys, lookup, nat_eq, none, not, refl, some, sort_func, str_compare,
  str_eq, sym, true, ◌||◌, ◌∙◌, ◌≡◌,
}

module _ {M : Type 0} (ops : ManagerOps M) where
  module _ (intent : Str → ForwardingIntent) (targets : Map Str HostTarget) where
    -- What a reload does with one name, given whether it is one of the targets.
    abbrev pub Settled : Str → Bool → Option M → Option M → Type 0
    Settled name true old new = Managed ops intent targets name old new
    Settled name false old new = new ≡ none

  pub sync_failed :
      (config : Configuration) (targets : Map Str HostTarget) (p : Pool M) (e : PoolError)
      → (close_stale ops (is_stale p.targets targets) p.managers).1 ≡ some e
      → sync_managers ops config targets p ≡ (
        record p { managers = (close_stale ops (is_stale p.targets targets) p.managers).0 },
        some e,
      )
  unfolding sync_managers
  sync_failed config targets p e h = rw (sync_managers, h) refl

  -- What the last loop makes of the managers that stay.
  abbrev pub applied : Configuration → Map Str HostTarget → Pool M → Map Str M × Option PoolError
  applied config targets p =
      apply_targets ops (host_intent config (reserved_ports config targets)) targets
        (sort_func str_compare (keys targets))
        (close_stale ops (is_stale p.targets targets) p.managers).0

  pub sync_applied :
      (config : Configuration) (targets : Map Str HostTarget) (p : Pool M)
      → (close_stale ops (is_stale p.targets targets) p.managers).1 ≡ none
      → sync_managers ops config targets p ≡ (
        record p { managers = (applied config targets p).0; targets = some targets },
        (applied config targets p).1,
      )
  unfolding sync_managers
  sync_applied config targets p h = rw (sync_managers, h) refl

  Settled-of_IsApplied :
      (intent : Str → ForwardingIntent) (targets : Map Str HostTarget) (names : List Str)
      → (before out : Map Str M) (k : Str) (wanted gone : Bool) (old : Option M)
      → contains names k ≡ wanted
      → lookup k before ≡ (if not wanted || gone then none else old)
      → IsApplied ops intent targets names before out k
      → Settled intent targets k wanted (if not wanted || gone then none else old) (lookup k out)
  Settled-of_IsApplied intent targets names before out k true gone old c e a =
      subst (λ o. Managed ops intent targets k o (lookup k out)) e (a.0 c)
  Settled-of_IsApplied intent targets names before out k false gone old c e a = a.1 c ∙ e

  pub sync_managers-Settled :
      (config : Configuration) (targets : Map Str HostTarget) (p q : Pool M) (k : Str)
      → Unique targets
      → sync_managers ops config targets p ≡ (q, none)
      → (q.closed ≡ p.closed)
        × (q.targets ≡ some targets)
        × Settled
            (host_intent config (reserved_ports config targets))
            targets
            k
            (has k targets)
            (if is_stale p.targets targets k then none else lookup k p.managers)
            (lookup k q.managers)
  unfolding is_stale
  sync_managers-Settled config targets p q k u h =
      let left = close_stale ops (is_stale p.targets targets) p.managers in
      elim (Option-cases left.1) [
        | inr (e, problem) ↦ absurd (
            ground (arith, ap (λ r. r.1) (sync_failed config targets p e problem), ap (λ r. r.1) h))
        | inl fine ↦
            let both = sym (sync_applied config targets p fine) ∙ h in
            let names = sorted_keys targets u in
            (
              ap (λ r. r.0.closed) (sym both),
              ap (λ r. r.0.targets) (sym both),
              Settled-of_IsApplied (host_intent config (reserved_ports config targets)) targets
                  (sort_func str_compare (keys targets)) left.0 q.managers k (has k targets) _ _
                  (names.1 k)
                  (lookup-close_stale ops (is_stale p.targets targets) p.managers left.0 k
                    (ap (λ e. (left.0, e)) fine))
                  (apply_targets-IsApplied ops _ targets _ left.0 q.managers names.0
                    (ap (λ r. (r.0.managers, r.1)) both) k),
            )
      ]

  module _ (host : Str) (input : ReloadInput) (p : Pool M) where
    pub reads :
        (config : Option Configuration) (records : Option (Map Str DiscoveredHost)) (stores : Bool)
        → p.closed ≡ false
        → input.config ≡ config
        → input.records ≡ records
        → input.written ≡ stores
        → reload ops host input p ≡ elim config as (λ _. Pool M × Option PoolError) [
          | none ↦ (p, some config_unreadable)
          | some config ↦ elim records as (λ _. Pool M × Option PoolError) [
            | none ↦ (request host p, some records_unreadable)
            | some records ↦
                if not stores
                then (request host p, some records_unwritable)
                else sync_managers ops config
                    (wanted_targets input config records (request host p).requested)
                    (request host p)
          ]
        ]
    unfolding reload
    reads none records stores o c r w = simp (reload, o, c)
    reads (some config) none stores o c r w = simp (reload, o, c, r)
    reads (some config) (some records) true o c r w = simp (reload, o, c, r, w)
    reads (some config) (some records) false o c r w = simp (reload, o, c, r, w)
