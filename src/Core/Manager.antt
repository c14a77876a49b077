-- ===== src/Core/Manager.antt =====
-- One host's manager: `cli/internal/core/manager.go`, `manager_observe.go`, `manager_status.go` and
-- the locked operations of `worker.go`. Every operation holds the mutex from its first to its last
-- access, so it is one step of the state.
pub mod Operations
pub mod Effects
pub mod Reconciled
pub mod Frame
pub mod Invariant
pub mod Preserved
pub mod Workers
pub mod Runs
pub mod Closed
use ssh_forward.Core.Desired.{
  DesiredMap, Doublestar, build_desired_forwards, forward_status, reserved_local_ports,
}
use ssh_forward.Core.Intent.{normalize_intent}
use ssh_forward.Core.Normalize.{IntentError}
use ssh_forward.Core.Reconcile.{WorkerSnapshot, plan_reconciliation}
use ssh_forward.Core.Types.{
  DesiredForward, DiscoveryState, DiscoveryStatus, ForwardKey, ForwardState, ForwardStatus,
  ForwardingIntent, Listener, connecting, direction_eq, key, key_eq, starting, state_eq, target_eq,
  zero_status,
}
use ssh_forward.Prelude.{
  Bool, List, Map, Result, Str, [], bool_eq, delete_if, false, has, insert, lookup, nat_eq, none,
  not, ok, some, str_eq, true, value_or, ℕ, ◌&&◌, ◌+◌, ◌>>=◌, ◌∷◌,
}

-- A `*forwardWorker`: `id` is the pointer's identity, `cancelled` says that its own `cancel` was
-- called. Its context is derived from the manager's, which `Close` cancels.
pub record Worker : Type 0 where
  pub id : ℕ
  pub desired : DesiredForward
  pub cancelled : Bool

-- `closed` is also the state of the manager's context: `Close` sets and cancels them together.
-- `next_worker` counts the allocations of workers.
pub record Manager : Type 0 where
  pub closed : Bool
  pub host : Str
  pub intent : ForwardingIntent
  pub discovery : DiscoveryStatus
  pub listeners : Map ℕ Listener
  pub states : Map ForwardKey ForwardStatus
  pub reserved_local_ports : List ℕ
  pub forward_workers : Map ForwardKey Worker
  pub next_worker : ℕ

-- The loop over `m.forwardWorkers` that takes the snapshots.
unfoldable pub snapshots :
    Map ForwardKey ForwardStatus → Map ForwardKey Worker → Map ForwardKey WorkerSnapshot
snapshots states [] = []
snapshots states ((k, w) ∷ rest) =
    (k, record { desired = w.desired; status = value_or (lookup k states) zero_status })
    ∷ snapshots states rest

-- The loop over `plan.keep`.
unfoldable pub keep_forwards :
    List DesiredForward → Map ForwardKey ForwardStatus → Map ForwardKey ForwardStatus
keep_forwards [] states = states
keep_forwards (d ∷ rest) states = keep_forwards rest (
    insert (key d)
      (record (value_or (lookup (key d) states) zero_status) { automatic = d.automatic }) states)

-- The loop over `plan.stop`; its keys are those of running workers.
unfoldable pub stop_workers : List ForwardKey → Map ForwardKey Worker → Map ForwardKey Worker
stop_workers [] workers = workers
stop_workers (k ∷ rest) workers = stop_workers rest (elim (lookup k workers) [
  | none ↦ workers
  | some w ↦ insert k (record w { cancelled = true }) workers
])

-- A forward that is about to start, or waits to.
abbrev pub starting_status : DesiredForward → ForwardStatus
starting_status d = forward_status d ForwardState.starting [] d.preferred

-- The loop over `plan.wait`.
unfoldable pub wait_forwards :
    List DesiredForward → Map ForwardKey ForwardStatus → Map ForwardKey ForwardStatus
wait_forwards [] states = states
wait_forwards (d ∷ rest) states = wait_forwards rest (insert (key d) (starting_status d) states)

-- `startForwardLocked`, up to the start of the goroutine.
unfoldable pub start_forward : DesiredForward → Manager → Manager
start_forward d m = record m {
  forward_workers =
      insert (key d) (record { id = m.next_worker; desired = d; cancelled = false })
        m.forward_workers;
  states = insert (key d) (starting_status d) m.states;
  next_worker = m.next_worker + 1;
}

-- The loop over `plan.start`.
unfoldable pub start_forwards : List DesiredForward → Manager → Manager
unfolding start_forward
start_forwards [] m = m
start_forwards (d ∷ rest) m = start_forwards rest (start_forward d m)

-- `reconcileForwardsLocked`, given the wanted forwards.
unfoldable pub reconcile_with : DesiredMap → Manager → Manager
reconcile_with desired m =
    let states = delete_if (λ k. not (has k desired) && not (has k m.forward_workers)) m.states in
    let plan =
      plan_reconciliation desired (snapshots states m.forward_workers) m.reserved_local_ports in
    start_forwards plan.start (record m {
      states = wait_forwards plan.wait (keep_forwards plan.keep states);
      forward_workers = stop_workers plan.stop m.forward_workers;
    })

-- The value that `newManager` allocates.
unfoldable pub initial_manager : Str → ForwardingIntent → Manager
initial_manager host intent = record {
  closed = false;
  host = host;
  intent = intent;
  discovery = record { state = DiscoveryState.connecting; diagnostic = [] };
  listeners = [];
  states = [];
  reserved_local_ports = reserved_local_ports intent.published_forwards intent.reserved_local_ports;
  forward_workers = [];
  next_worker = 0;
}

module _ (glob : Doublestar) where
  -- The forwards that the intent and the listeners ask for.
  unfoldable pub wanted : Manager → DesiredMap
  wanted m =
      build_desired_forwards glob m.intent.remembered_forwards m.intent.published_forwards
        m.listeners m.intent.working_directory_rules m.intent.ignored_apps m.intent.auto_forwards

  unfoldable pub reconcile_forwards : Manager → Manager
  reconcile_forwards m = reconcile_with (wanted m) m

  -- `newManager`, up to the start of the observer.
  unfoldable pub new_manager : Str → ForwardingIntent → Result IntentError Manager
  new_manager host raw = do
    intent ← normalize_intent glob raw
    ok (reconcile_forwards (initial_manager host intent))
