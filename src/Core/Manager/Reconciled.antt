-- ===== src/Core/Manager/Reconciled.antt =====
-- The state after `reconcileForwardsLocked`, key by key.
use mathlib.Core.Option
use ssh_forward.Core.Desired.{DesiredMap}
use ssh_forward.Core.Desired.Keyed.{IsWellKeyed}
use ssh_forward.Core.Manager.{
  Manager, Worker, keep_forwards, reconcile_with, snapshots, start_forwards, starting_status,
  stop_workers, wait_forwards,
}
use ssh_forward.Core.Manager.Effects.{
  body, lookup-keep_forwards, lookup-snapshots, lookup-start_forwards-states,
  lookup-start_forwards-workers, lookup-stop_workers, lookup-wait_forwards,
}
use ssh_forward.Core.Reconcile.{
  ReconciliationPlan, WorkerSnapshot, keeps, plan_reconciliation, reserved_worker_port,
  same_forward_behavior,
}
use ssh_forward.Core.Reconcile.Partition.{plan-wanted, plan_partition, stopping_ports}
use ssh_forward.Core.Reconcile.Plan.{waits_at}
use ssh_forward.Core.Types.{
  DesiredForward, ForwardKey, ForwardStatus, direction_eq, key_eq, state_eq, target_eq, zero_status,
}
use ssh_forward.Prelude.{
  Bool, Map, Option, Option-cases, arith, bool_eq, delete_if, false, has, if◌then◌else◌, inl, inr,
  lookup, lookup-delete_if, nat_eq, none, not, some, str_eq, true, value_or, ◌&&◌, ◌≡◌,
}

-- A worker that holds a reserved local port while it starts or is active.
abbrev pub holds_reserved : Manager → ForwardKey → Bool
holds_reserved m k =
    (reserved_worker_port k (value_or (lookup k m.states) zero_status) m.reserved_local_ports).1

-- A worker goes on when its forward is still wanted with the same behaviour, and it holds no
-- reserved port.
abbrev pub goes_on : Manager → ForwardKey → Option DesiredForward → Worker → Bool
goes_on m k none w = false
goes_on m k (some d) w = same_forward_behavior w.desired d && not (holds_reserved m k)

abbrev pub status_after :
    Manager
    → ForwardKey
    → Option DesiredForward
    → Option Worker
    → Option ForwardStatus
    → Option ForwardStatus
status_after m k none none s = none
status_after m k (some d) none s = some (starting_status d)
status_after m k none (some w) s = s
status_after m k (some d) (some w) s =
    if goes_on m k (some d) w
    then some (record (value_or s zero_status) { automatic = d.automatic })
    else s

abbrev pub worker_after :
    Manager
    → ForwardKey
    → Bool
    → Option DesiredForward
    → Option Worker
    → Option (DesiredForward × Bool)
worker_after m k waiting none none = none
worker_after m k waiting (some d) none = if waiting then none else some (d, false)
worker_after m k waiting d (some w) =
    some (w.desired, if goes_on m k d w then w.cancelled else true)

module _ (desired : DesiredMap) (m : Manager) where
  abbrev pub states_kept : Map ForwardKey ForwardStatus
  states_kept = delete_if (λ k. not (has k desired) && not (has k m.forward_workers)) m.states

  abbrev pub workers_seen : Map ForwardKey WorkerSnapshot
  workers_seen = snapshots states_kept m.forward_workers

  -- Whether a wanted forward without a worker waits for an import to leave its local port.
  abbrev pub is_waiting : ForwardKey → Bool
  is_waiting k =
      waits_at desired workers_seen (stopping_ports desired workers_seen m.reserved_local_ports) k

  has-workers_seen : (k : ForwardKey) → has k workers_seen ≡ has k m.forward_workers
  has-workers_seen k = ground (arith, lookup-snapshots states_kept m.forward_workers k)

  keeps-goes_on :
      (k : ForwardKey) (w : Worker)
      → lookup k m.forward_workers ≡ some w
      → keeps desired workers_seen m.reserved_local_ports k ≡ goes_on m k (lookup k desired) w
  unfolding keeps
  keeps-goes_on k w e = ground (
    arith,
    lookup-snapshots states_kept m.forward_workers k,
    lookup-delete_if (λ j. not (has j desired) && not (has j m.forward_workers)) k m.states,
  )

  module _ (keyed : IsWellKeyed desired) (k : ForwardKey) where
    abbrev plan : ReconciliationPlan
    plan = plan_reconciliation desired workers_seen m.reserved_local_ports

    abbrev states_told : Map ForwardKey ForwardStatus
    states_told = wait_forwards plan.wait (keep_forwards plan.keep states_kept)

    abbrev told : Manager
    told = record m {
      states = states_told;
      forward_workers = stop_workers plan.stop m.forward_workers;
    }

    status_lem :
        lookup k (start_forwards plan.start told).states
        ≡ status_after m k (lookup k desired) (lookup k m.forward_workers) (lookup k m.states)
    status_lem =
        let p = plan_partition desired workers_seen m.reserved_local_ports keyed k in
        let (kept, started, waiting) =
          plan-wanted desired workers_seen m.reserved_local_ports keyed in
        let e1 = lookup-start_forwards-states desired plan.start told k started in
        let e2 =
          lookup-wait_forwards desired plan.wait (keep_forwards plan.keep states_kept) k waiting in
        let e3 = lookup-keep_forwards desired plan.keep states_kept k kept in
        let e4 =
          lookup-delete_if (λ j. not (has j desired) && not (has j m.forward_workers)) k m.states in
        elim (Option-cases (lookup k m.forward_workers)) [
          | inl e ↦ ground (arith, p, e1, e2, e3, e4, has-workers_seen k)
          | inr (w, e) ↦ ground (arith, p, e1, e2, e3, e4, has-workers_seen k, keeps-goes_on k w e)
        ]

    worker_lem :
        Option.map body (lookup k (start_forwards plan.start told).forward_workers)
        ≡ worker_after m k (is_waiting k) (lookup k desired) (lookup k m.forward_workers)
    worker_lem =
        let p = plan_partition desired workers_seen m.reserved_local_ports keyed k in
        let started = (plan-wanted desired workers_seen m.reserved_local_ports keyed).1 in
        let e1 = lookup-start_forwards-workers desired plan.start told k started in
        let e2 = lookup-stop_workers plan.stop m.forward_workers k in
        elim (Option-cases (lookup k m.forward_workers)) [
          | inl e ↦ ground (arith, p, e1, e2, has-workers_seen k)
          | inr (w, e) ↦ ground (arith, p, e1, e2, has-workers_seen k, keeps-goes_on k w e)
        ]

    -- After a reconciliation the status and the worker of every key are those that the wanted
    -- forward, the worker and the status of this key before it call for, together with the reserved
    -- local ports and with whether the key waits for the local port of a worker that stops.
    pub reconcile_with_lem :
        (lookup k (reconcile_with desired m).states
          ≡ status_after m k (lookup k desired) (lookup k m.forward_workers) (lookup k m.states))
        × (Option.map body (lookup k (reconcile_with desired m).forward_workers)
            ≡ worker_after m k (is_waiting k) (lookup k desired) (lookup k m.forward_workers))
    unfolding reconcile_with
    reconcile_with_lem = (status_lem, worker_lem)
