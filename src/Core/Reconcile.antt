-- ===== src/Core/Reconcile.antt =====
-- The decisions of a reconciliation: `planReconciliation` of `cli/internal/core/reconcile.go`.
pub mod Plan
pub mod Partition
use ssh_forward.Core.Desired.{DesiredMap}
use ssh_forward.Core.Types.{
  DesiredForward, ForwardDirection, ForwardKey, ForwardState, ForwardStatus, active, direction_eq,
  key_eq, local_to_remote, remote_to_local, starting, state_eq, target_eq, unset, zero_status,
}
use ssh_forward.Prelude.{
  Bool, List, Map, Ordering, [], bool_eq, compare, contains, false, has, if◌then◌else◌, keys,
  lookup, nat_eq, none, not, some, sort_func, str_eq, value_or, ℕ, ◌&&◌, ◌==◌, ◌||◌, ◌∷◌,
}

pub record WorkerSnapshot : Type 0 where
  pub desired : DesiredForward
  pub status : ForwardStatus

pub record ReconciliationPlan : Type 0 where
  pub keep : List DesiredForward
  pub stop : List ForwardKey
  pub wait : List DesiredForward
  pub start : List DesiredForward

-- What Go's maps return for a missing key; every key that is looked up so is present.
abbrev pub zero_desired : DesiredForward
zero_desired = record {
  preferred = record { direction = ForwardDirection.unset; remote_port = 0; local_port = 0 };
  automatic = false;
  allow_fallback = false;
}

abbrev pub zero_snapshot : WorkerSnapshot
zero_snapshot = record { desired = zero_desired; status = zero_status }

-- The sign of the result.
unfoldable pub compare_forward_keys : ForwardKey → ForwardKey → Ordering
compare_forward_keys left right =
    if left.direction == right.direction
    then compare left.service_port right.service_port
    else if left.direction == ForwardDirection.remote_to_local
    then Ordering.lt
    else Ordering.gt

unfoldable pub sorted_forward_keys : {T : Type 0} → Map ForwardKey T → List ForwardKey
unfolding sort_func compare_forward_keys
sorted_forward_keys forwards = sort_func compare_forward_keys (keys forwards)

unfoldable pub same_forward_behavior : DesiredForward → DesiredForward → Bool
same_forward_behavior left right =
    left.preferred == right.preferred && left.allow_fallback == right.allow_fallback

unfoldable pub reserved_worker_port : ForwardKey → ForwardStatus → List ℕ → ℕ × Bool
reserved_worker_port k status reserved =
    if not (k.direction == ForwardDirection.remote_to_local)
      || (not (status.state == ForwardState.starting) && not (status.state == ForwardState.active))
    then (0, false)
    else (status.local_port, contains reserved status.local_port)

-- What the first loop builds.
pub record WorkerPlan : Type 0 where
  pub keep : List DesiredForward
  pub stop : List ForwardKey
  pub stopping_local_ports : List ℕ

-- What the second loop builds.
pub record DesiredPlan : Type 0 where
  pub wait : List DesiredForward
  pub start : List DesiredForward

module _ (desired : DesiredMap) (workers : Map ForwardKey WorkerSnapshot) where
  abbrev pub worker_at : ForwardKey → WorkerSnapshot
  worker_at k = value_or (lookup k workers) zero_snapshot

  module _ (reserved : List ℕ) where
    -- The test under which a running worker is left alone.
    unfoldable pub keeps : ForwardKey → Bool
    unfolding same_forward_behavior reserved_worker_port
    keeps k = elim (lookup k desired) [
      | none ↦ false
      | some d ↦
          same_forward_behavior (worker_at k).desired d
          && not (reserved_worker_port k (worker_at k).status reserved).1
    ]

    unfoldable pub plan_workers : List ForwardKey → WorkerPlan
    unfolding keeps
    plan_workers [] = record { keep = []; stop = []; stopping_local_ports = [] }
    plan_workers (k ∷ ks) =
        let rest = plan_workers ks in
        let (port, uses_reserved) = reserved_worker_port k (worker_at k).status reserved in
        if keeps k
        then record rest { keep = value_or (lookup k desired) zero_desired ∷ rest.keep }
        else record rest {
          stop = k ∷ rest.stop;
          stopping_local_ports =
              if uses_reserved then port ∷ rest.stopping_local_ports else rest.stopping_local_ports;
        }

  module _ (stopping_local_ports : List ℕ) where
    -- The test under which a publication waits for an import to leave its local port.
    unfoldable pub waits : DesiredForward → Bool
    waits d =
        d.preferred.direction == ForwardDirection.local_to_remote
        && contains stopping_local_ports d.preferred.local_port

    unfoldable pub plan_desired : List ForwardKey → DesiredPlan
    unfolding waits
    plan_desired [] = record { wait = []; start = [] }
    plan_desired (k ∷ ks) =
        let rest = plan_desired ks in
        let d = value_or (lookup k desired) zero_desired in
        if has k workers
        then rest
        else if waits d
        then record rest { wait = d ∷ rest.wait }
        else record rest { start = d ∷ rest.start }

unfoldable pub plan_reconciliation :
    DesiredMap → Map ForwardKey WorkerSnapshot → List ℕ → ReconciliationPlan
unfolding plan_workers plan_desired sorted_forward_keys
plan_reconciliation desired workers reserved =
    let first = plan_workers desired workers reserved (sorted_forward_keys workers) in
    let second =
      plan_desired desired workers first.stopping_local_ports (sorted_forward_keys desired) in
    record { keep = first.keep; stop = first.stop; wait = second.wait; start = second.start }
