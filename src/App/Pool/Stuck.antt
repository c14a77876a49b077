-- ===== src/App/Pool/Stuck.antt =====
-- A reload whose `Close` of a manager fails.
use mathlib.Core.Path.{subst}
use ssh_forward.App.Pool.{
  ManagerOps, Pool, Reads, ReloadInput, close_failed, close_stale, host_intent, is_stale, reload,
  request, reserved_ports,
}
use ssh_forward.App.Pool.Reload.{IsReloaded-of_reads, reload_lem, request_keeps, targets_of}
use ssh_forward.App.Pool.Reloaded.{closed_first, kept_first}
use ssh_forward.App.Pool.Settled.{Settled, reads, sync_failed}
use ssh_forward.App.Targets.{DiscoveredHost, HostTarget}
use ssh_forward.App.Wire.{Configuration}
use ssh_forward.Core.Manager.Operations.{ManagerError}
use ssh_forward.Core.Types.{ForwardingIntent, direction_eq, key_eq, state_eq, target_eq}
use ssh_forward.Prelude.{
  ==_refl, Bool, Bool-cases, Map, Option, Option-cases, Str, Unique, [], ap, arith, bool_eq, false,
  has, if◌then◌else◌, inl, inr, lookup, nat_eq, none, some, str_eq, sym, true, ◌∙◌, ◌∷◌, ◌≡◌, ◌≢◌,
}

module _ {M : Type 0} (ops : ManagerOps M) (Dead : M → Type 0) where
  -- A manager that did not close in time is closed nevertheless, and then takes no intent.
  pub record IsFinal : Type 0 where
    pub dies :
        (name : Str) (m : M) (e : ManagerError)
        → (ops.close name m).1 ≡ some e
        → Dead (ops.close name m).0
    pub refuses :
        (name : Str) (i : ForwardingIntent) (m : M)
        → Dead m
        → (e : ManagerError) × ((ops.update name i m).1 ≡ some e)

  -- The pool still lists a closed manager under the name.
  abbrev pub IsStuck : Map Str M → Str → Type 0
  IsStuck managers name = (m : M) × (lookup name managers ≡ some m) × Dead m

  module _ (final : IsFinal) where
    IsStuck-close_stale :
        (stale : Str → Bool) (managers : Map Str M) (name : Str) (e : ManagerError)
        → Unique managers
        → (close_stale ops stale managers).1 ≡ some (close_failed name e)
        → (has name managers ≡ true) × IsStuck (close_stale ops stale managers).0 name
    unfolding close_stale lookup
    IsStuck-close_stale stale [] name e u h = absurd (ground arith)
    IsStuck-close_stale stale ((n, m) ∷ rest) name e u h = elim (Bool-cases (stale n)) [
      | inr stays ↦
          let first = kept_first ops stale n m rest stays in
          let (here, (m', found, dead)) =
            IsStuck-close_stale stale rest name e u.1 (sym (ap (λ r. r.1) first) ∙ h) in
          (
            ground (arith, here),
            (m', ap (λ r. lookup name r.0) first ∙ ground (arith, here, found, u.0), dead),
          )
      | inl goes ↦ elim (Option-cases (ops.close n m).1) [
        | inr (failure, c) ↦
            let first = closed_first ops stale n m rest (some failure) goes c in
            let same : n ≡ name = ground (arith, h, ap (λ r. r.1) first) in
            (
              ground (arith, ==_refl name),
              (
                (ops.close n m).0,
                ap (λ r. lookup name r.0) first ∙ ground (arith, ==_refl name),
                final.dies n m failure c,
              ),
            )
        | inl c ↦
            let first = closed_first ops stale n m rest none goes c in
            let (here, (m', found, dead)) =
              IsStuck-close_stale stale rest name e u.1 (sym (ap (λ r. r.1) first) ∙ h) in
            (ground (arith, here), (m', ap (λ r. lookup name r.0) first ∙ found, dead))
      ]
    ]

    update-of_Settled :
        (intent : Str → ForwardingIntent) (targets : Map Str HostTarget) (name : Str)
        → (here gone : Bool) (old new : Option M) (m : M) → here ≡ true
        → gone ≡ false
        → old ≡ some m
        → Settled ops intent targets name here (if gone then none else old) new
        → (m' : M) × (ops.update name (intent name) m ≡ (m', none))
    update-of_Settled intent targets name false gone old new m w g o s = absurd (ground arith)
    update-of_Settled intent targets name true true old new m w g o s = absurd (ground arith)
    update-of_Settled intent targets name true false none new m w g o s = absurd (ground arith)
    update-of_Settled intent targets name true false (some n) new m w g o (n', at, e) =
        (n', subst (λ x. ops.update name (intent name) x ≡ (n', none)) (ground arith) e)

    reload_refused :
        (host : Str) (input : ReloadInput) (p : Pool M) (name : Str) (config : Configuration)
        → (records : Map Str DiscoveredHost) → Reads input config records
        → has name (targets_of ops host input p config records) ≡ true
        → is_stale p.targets (targets_of ops host input p config records) name ≡ false
        → IsStuck p.managers name
        → (reload ops host input p).1 ≢ none
    reload_refused host input p name config records (c, l, w) here fresh (m, found, dead) h =
        let end = ap (λ e. ((reload ops host input p).0, e)) h in
        let (_, _, r) = reload_lem ops host input p (reload ops host input p).0 name end in
        let s = IsReloaded-of_reads ops host input p config records _ name r.was_open c l w end in
        let targets = targets_of ops host input p config records in
        let intent = host_intent config (reserved_ports config targets) in
        let (_, e) =
          update-of_Settled intent targets name (has name targets) (is_stale p.targets targets name)
            (lookup name p.managers) (lookup name (reload ops host input p).0.managers) m here fresh
            found s.settled in
        let (_, refused) = final.refuses name (intent name) m dead in
        absurd (ground (arith, refused, ap (λ x. x.1) e))

    -- Let a manager whose `Close` fails be one that takes no intent any more. Then, after a reload of an
    -- open pool that ends because the `Close` of the manager of `name` failed, the next reload returns an
    -- error if it reads a configuration and records for which the target of `name` is the one before the
    -- first reload.
    pub reload_stuck :
        (host host' : Str) (input input' : ReloadInput) (p : Pool M) (name : Str) (e : ManagerError)
        → (config config' : Configuration) (records records' : Map Str DiscoveredHost)
        → p.closed ≡ false
        → Unique p.managers
        → Reads input config records
        → (close_stale ops
            (is_stale p.targets (targets_of ops host input p config records))
            p.managers).1
          ≡ some (close_failed name e)
        → Reads input' config' records'
        → has name (targets_of ops host' input' (reload ops host input p).0 config' records') ≡ true
        → is_stale p.targets
            (targets_of ops host' input' (reload ops host input p).0 config' records')
            name
          ≡ false
        → (reload ops host' input' (reload ops host input p).0).1 ≢ none
    reload_stuck host host' input input' p name e config config' records records' o u (c, l, w) h r
          here fresh =
        let targets = targets_of ops host input p config records in
        let kept = request_keeps ops host input p in
        let failed' =
          subst (λ k. (close_stale ops (is_stale k.1 targets) k.0).1 ≡ some (close_failed name e))
            (sym kept) h in
        let left : (reload ops host input p).0 ≡ _ =
          ap (λ x. x.0)
            (reads ops host input p (some config) (some records) true o c l w
              ∙ sync_failed ops config targets (request host p) (close_failed name e) failed') in
        reload_refused host' input' (reload ops host input p).0 name config' records' r here
          (ap
              (λ x.
                is_stale x.targets
                  (targets_of ops host' input' (reload ops host input p).0 config' records') name)
              left
            ∙ ap
                (λ k.
                  is_stale k.1
                    (targets_of ops host' input' (reload ops host input p).0 config' records') name)
                kept
            ∙ fresh)
          (subst (λ x. IsStuck x.managers name) (sym left)
            (IsStuck-close_stale _ (request host p).managers name e
              (subst Unique (sym (ap (λ x. x.0) kept)) u) failed').1)
