-- ===== src/Core/Reconcile/Partition.antt =====
-- The plan as a whole: what it does with each key.
use ssh_forward.Core.Desired.{DesiredMap}
use ssh_forward.Core.Desired.Keyed.{IsWellKeyed}
use ssh_forward.Core.Reconcile.{
  ReconciliationPlan, WorkerSnapshot, keeps, plan_reconciliation, plan_workers, sorted_forward_keys,
  waits,
}
use ssh_forward.Core.Reconcile.Plan.{
  Leaves, contains-sorted_keys, keep-plan_workers, kept-plan_workers, leaver-plan_workers,
  start-plan_desired, stop-plan_workers, stopping-plan_workers, wait-plan_desired, waits_at,
  wanted-plan_desired,
}
use ssh_forward.Core.Types.{
  DesiredForward, ForwardDirection, ForwardKey, direction_eq, key, key_eq, state_eq, target_eq,
}
use ssh_forward.Prelude.{
  All, List, Map, Option-cases, arith, bool_eq, contains, false, has, inl, inr, lookup, map, nat_eq,
  not, some, str_eq, sym, true, ℕ, ◌&&◌, ◌↔◌, ◌∙◌, ◌≡◌,
}

module _ (desired : DesiredMap) (workers : Map ForwardKey WorkerSnapshot) (reserved : List ℕ) where
  abbrev pub stopping_ports : List ℕ
  stopping_ports =
      (plan_workers desired workers reserved (sorted_forward_keys workers)).stopping_local_ports

  abbrev plan : ReconciliationPlan
  plan = plan_reconciliation desired workers reserved

  known : (j : ForwardKey) → contains (sorted_forward_keys desired) j ≡ true → has j desired ≡ true
  known j h = sym (contains-sorted_keys desired j) ∙ h

  module _ (keyed : IsWellKeyed desired) (k : ForwardKey) where
    -- Every running worker is either kept or stopped, and never both: it is kept exactly when its
    -- forward is still wanted with the same behaviour and it does not hold a reserved port. Every
    -- wanted forward without a worker either starts or waits, and nothing else does.
    pub plan_partition :
        (contains plan.stop k ≡ (has k workers && not (keeps desired workers reserved k)))
        × (contains (map key plan.keep) k ≡ (has k workers && keeps desired workers reserved k))
        × (contains (map key plan.start) k ≡ (
            has k desired
            && not (has k workers)
            && not (waits_at desired workers stopping_ports k)))
        × (contains (map key plan.wait) k
            ≡ (has k desired && not (has k workers) && waits_at desired workers stopping_ports k))
    unfolding plan_reconciliation
    plan_partition = (
      ground (
        arith,
        stop-plan_workers desired workers reserved (sorted_forward_keys workers) k,
        contains-sorted_keys workers k,
      ),
      ground (
        arith,
        keep-plan_workers desired workers reserved keyed (sorted_forward_keys workers) k,
        contains-sorted_keys workers k,
      ),
      ground (
        arith,
        start-plan_desired desired workers stopping_ports keyed (sorted_forward_keys desired) k
            known,
        contains-sorted_keys desired k,
      ),
      ground (
        arith,
        wait-plan_desired desired workers stopping_ports keyed (sorted_forward_keys desired) k
            known,
        contains-sorted_keys desired k,
      ),
    )

    waits_at_iff : (waits_at desired workers stopping_ports k ≡ true) ↔ (
        (d : DesiredForward) × (lookup k desired ≡ some d)
        × (d.preferred.direction ≡ ForwardDirection.local_to_remote)
        × (j : ForwardKey) × (has j workers ≡ true)
        × Leaves desired workers reserved d.preferred.local_port j)
    unfolding waits
    waits_at_iff = (
      λ h. elim (Option-cases (lookup k desired)) [
        | inl e ↦ absurd (ground arith)
        | inr (d, e) ↦
            let (j, c, l) =
              leaver-plan_workers desired workers reserved (sorted_forward_keys workers)
                d.preferred.local_port (ground arith) in
            (d, e, ground arith, j, sym (contains-sorted_keys workers j) ∙ c, l)
      ],
      λ (d, e, direction, j, c, l).
          let found =
            stopping-plan_workers desired workers reserved (sorted_forward_keys workers)
              d.preferred.local_port j (contains-sorted_keys workers j ∙ c) l in
          ground (arith, found),
    )

    -- Where every wanted forward stands under its own key, the plan lets a key wait exactly when it has
    -- no worker, a publication is wanted under it, and the local port of this publication is reserved
    -- and is held by the worker of an import that the plan stops.
    pub waits_iff : (contains (map key plan.wait) k ≡ true) ↔ (
        (has k workers ≡ false)
        × (d : DesiredForward) × (lookup k desired ≡ some d)
        × (d.preferred.direction ≡ ForwardDirection.local_to_remote)
        × (j : ForwardKey) × (has j workers ≡ true)
        × Leaves desired workers reserved d.preferred.local_port j)
    waits_iff =
        let settled = plan_partition.3 in
        (
          λ h.
              let (d, e, direction, j, c, l) = waits_at_iff.0 (ground (arith, settled)) in
              (ground (arith, settled), d, e, direction, j, c, l),
          λ (vacant, d, e, direction, j, c, l).
              ground (arith, settled, vacant, e, waits_at_iff.1 (d, e, direction, j, c, l)),
        )

  -- What the plan keeps, starts and lets wait are the wanted forwards themselves.
  pub plan-wanted :
      IsWellKeyed desired
      → All (λ d. lookup (key d) desired ≡ some d) plan.keep
        × All (λ d. lookup (key d) desired ≡ some d) plan.start
        × All (λ d. lookup (key d) desired ≡ some d) plan.wait
  unfolding plan_reconciliation
  plan-wanted keyed =
      let (started, waiting) =
        wanted-plan_desired desired workers stopping_ports keyed (sorted_forward_keys desired)
          known in
      (
        kept-plan_workers desired workers reserved keyed (sorted_forward_keys workers),
        started,
        waiting,
      )
