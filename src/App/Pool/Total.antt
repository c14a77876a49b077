-- ===== src/App/Pool/Total.antt =====
-- A reload whose calls succeed.
use mathlib.Core.Path.{subst}
use ssh_forward.App.Pool.{
  ManagerOps, Pool, PoolError, Reads, ReloadInput, apply_targets, close_stale, host_intent,
  is_stale, reload, request, reserved_ports, target_at,
}
use ssh_forward.App.Pool.Applied.{apply_created, apply_updated}
use ssh_forward.App.Pool.Reload.{request_keeps, targets_of}
use ssh_forward.App.Pool.Reloaded.{closed_first, kept_first}
use ssh_forward.App.Pool.Settled.{reads, sync_applied}
use ssh_forward.App.Targets.{DiscoveredHost, HostTarget}
use ssh_forward.App.Wire.{Configuration}
use ssh_forward.Core.Types.{ForwardingIntent, direction_eq, key_eq, state_eq, target_eq}
use ssh_forward.Prelude.{
  All, All-insert, All-lookup, Bool, Bool-cases, List, Map, Option, Option-cases, Str, [], ap,
  bool_eq, false, inl, inr, insert, keys, lookup, nat_eq, none, ok, refl, some, sort_func,
  str_compare, str_eq, sym, true, ◌∙◌, ◌∷◌, ◌≡◌,
}

module _ {M : Type 0} (ops : ManagerOps M) (Alive : M → Type 0) where
  -- No call that a reload makes fails: of a manager that is alive, and with the intents of this one.
  pub record Answers (intent : Str → ForwardingIntent) : Type 0 where
    pub creates :
        (name : Str) (t : HostTarget) → (m : M) × (ops.create name t (intent name) ≡ ok m) × Alive m
    pub updates :
        (name : Str) (m : M)
        → Alive m
        → (m' : M) × (ops.update name (intent name) m ≡ (m', none)) × Alive m'
    pub closes : (name : Str) (m : M) → Alive m → (ops.close name m).1 ≡ none

  abbrev pub AllAlive : Map Str M → Type 0
  AllAlive = All (λ (e : Str × M). Alive e.1)

  -- A loop over the managers has ended without an error.
  abbrev HasEnded : Map Str M × Option PoolError → Type 0
  HasEnded r = (r.1 ≡ none) × AllAlive r.0

  module _ (intent : Str → ForwardingIntent) (answers : Answers intent) where
    close_stale_succeeds :
        (stale : Str → Bool) (managers : Map Str M)
        → AllAlive managers
        → HasEnded (close_stale ops stale managers)
    unfolding close_stale
    close_stale_succeeds stale [] a = (refl, tt)
    close_stale_succeeds stale ((name, m) ∷ rest) a =
        let later = close_stale_succeeds stale rest a.1 in
        elim (Bool-cases (stale name)) [
          | inr stays ↦
              let first = kept_first ops stale name m rest stays in
              (ap (λ r. r.1) first ∙ later.0, subst (λ r. AllAlive r.0) (sym first) (a.0, later.1))
          | inl goes ↦
              let first =
                closed_first ops stale name m rest none goes (answers.closes name m a.0) in
              subst HasEnded (sym first) later
        ]

    apply_targets_succeeds :
        (targets : Map Str HostTarget) (names : List Str) (managers : Map Str M)
        → AllAlive managers
        → HasEnded (apply_targets ops intent targets names managers)
    unfolding apply_targets
    apply_targets_succeeds targets [] managers a = (refl, a)
    apply_targets_succeeds targets (name ∷ rest) managers a =
        elim (Option-cases (lookup name managers)) [
          | inr (m, found) ↦
              let (m', e, now) =
                answers.updates name m
                  (All-lookup (λ (e : Str × M). Alive e.1) name m managers a found) in
              let first =
                apply_updated ops intent targets name rest managers m none found
                  (ap (λ r. r.1) e) in
              let later =
                apply_targets_succeeds targets rest
                  (insert name (ops.update name (intent name) m).0 managers)
                  (All-insert (λ (e : Str × M). Alive e.1) name _ managers
                    (subst (λ r. Alive r.0) (sym e) now) a) in
              subst HasEnded (sym first) later
          | inl absent ↦
              let (m, e, now) = answers.creates name (target_at name targets) in
              let first = apply_created ops intent targets name rest managers (ok m) absent e in
              let later =
                apply_targets_succeeds targets rest (insert name m managers)
                  (All-insert (λ (e : Str × M). Alive e.1) name m managers now a) in
              subst HasEnded (sym first) later
        ]

  -- Where the pool is open, everything can be read, the records can be stored, the managers of the
  -- pool are alive, and the calls that are made of those and of `createTarget` succeed, a reload
  -- returns no error, and the managers of the pool are alive again.
  pub reload_total :
      (host : Str) (input : ReloadInput) (p : Pool M) (config : Configuration)
      → (records : Map Str DiscoveredHost) → p.closed ≡ false
      → Reads input config records
      → Answers
          (host_intent config (reserved_ports config (targets_of ops host input p config records)))
      → AllAlive p.managers
      → (q : Pool M) × (reload ops host input p ≡ (q, none)) × AllAlive q.managers
  reload_total host input p config records o (c, l, w) answers a =
      let asked = request host p in
      let targets = targets_of ops host input p config records in
      let intent = host_intent config (reserved_ports config targets) in
      let closed =
        close_stale_succeeds intent answers (is_stale asked.targets targets) asked.managers
          (subst (λ e. AllAlive e.0) (sym (request_keeps ops host input p)) a) in
      let e =
        reads ops host input p (some config) (some records) true o c l w
        ∙ sync_applied ops config targets asked closed.0 in
      let fine =
        apply_targets_succeeds intent answers targets (sort_func str_compare (keys targets)) _
          closed.1 in
      (
        (reload ops host input p).0,
        ap (λ x. ((reload ops host input p).0, x)) (ap (λ r. r.1) e ∙ fine.0),
        subst (λ r. AllAlive r.0.managers) (sym e) fine.1,
      )
