-- ===== src/Core/Manager/Operations.antt =====
-- The operations of the manager: `manager.go`, `manager_observe.go`, `manager_status.go` and
-- `worker.go` of `cli/internal/core`.
use ssh_forward.Core.Desired.{Doublestar, forward_status, reserved_local_ports}
use ssh_forward.Core.Intent.{normalize_intent}
use ssh_forward.Core.Manager.{Manager, Worker, reconcile_forwards}
use ssh_forward.Core.Normalize.{IntentError}
use ssh_forward.Core.Reconcile.{compare_forward_keys}
use ssh_forward.Core.Types.{
  DiscoveryState, ForwardDirection, ForwardKey, ForwardState, ForwardStatus, ForwardTarget,
  ForwardingIntent, Listener, Status, direction_eq, key_eq, key_for, state_eq, target_eq,
  zero_status,
}
use ssh_forward.Prelude.{
  Bool, List, Map, Option, Ordering, Result, Str, [], bool_eq, compare, contains, delete, err,
  if◌then◌else◌, insert, lookup, nat_eq, none, not, ok, some, sort_func, str_eq, true, value_or,
  values, ℕ, ◌&&◌, ◌==◌, ◌||◌, ◌∷◌,
}

-- Why an operation of the manager fails.
pub data ManagerError : Type 0 where
  context_done : ManagerError
  invalid_intent : IntentError → ManagerError
  manager_closed : ManagerError

-- The loop of `setListeners`: a listener of port 0 is dropped, and the last of a port wins.
unfoldable pub collect_listeners : Map ℕ Listener → List Listener → Map ℕ Listener
collect_listeners listeners [] = listeners
collect_listeners listeners (l ∷ rest) =
    collect_listeners (if l.port == 0 then listeners else insert l.port l listeners) rest

-- `Close`, up to the wait for the goroutines.
unfoldable pub close : Manager → Manager
close m = record m { closed = true }

-- `setForwardState` for the worker with this identity, given the worker that the map holds.
unfoldable pub record_state :
    Option Worker → ForwardKey → ℕ → ForwardState → Str → ForwardTarget → Manager → Manager
record_state none k worker state diagnostic target m = m
record_state (some w) k worker state diagnostic target m =
    if m.closed || w.cancelled || not (w.id == worker) then m else record m {
      states =
          insert k
            (record (forward_status w.desired state diagnostic target) {
              automatic = (value_or (lookup k m.states) zero_status).automatic;
            })
            m.states;
    }

unfoldable pub set_forward_state :
    ForwardKey → ℕ → ForwardState → Str → ForwardTarget → Manager → Manager
unfolding record_state
set_forward_state k worker state diagnostic target m =
    record_state (lookup k m.forward_workers) k worker state diagnostic target m

-- `localPortReserved`
unfoldable pub local_port_reserved : ℕ → Manager → Bool
local_port_reserved port m = contains m.reserved_local_ports port

-- The loop of `Status` over `m.states`.
unfoldable pub active_published_ports : Map ForwardKey ForwardStatus → List ℕ
active_published_ports [] = []
active_published_ports ((k, s) ∷ rest) =
    let ports = active_published_ports rest in
    if k.direction == ForwardDirection.local_to_remote && s.state == ForwardState.active
    then s.remote_port ∷ ports
    else ports

-- The loop of `Status` over `m.listeners`.
unfoldable pub shown_listeners : List ℕ → Map ℕ Listener → List Listener
shown_listeners published [] = []
shown_listeners published ((port, l) ∷ rest) =
    let shown = shown_listeners published rest in
    if contains published port then shown else l ∷ shown

abbrev pub by_port : Listener → Listener → Ordering
by_port left right = compare left.port right.port

unfoldable pub status_key : ForwardStatus → ForwardKey
unfolding key_for
status_key s = key_for s.direction s.local_port s.remote_port

unfoldable pub compare_forward_status : ForwardStatus → ForwardStatus → Ordering
unfolding compare_forward_keys status_key
compare_forward_status left right = compare_forward_keys (status_key left) (status_key right)

-- `Status`; `context_err` says that the caller's context is done.
unfoldable pub status : Bool → Manager → Result ManagerError Status
unfolding active_published_ports shown_listeners sort_func compare_forward_status
status context_err m =
    if context_err
    then err context_done
    else if m.closed
    then err manager_closed
    else ok (record {
      host = m.host;
      discovery = m.discovery;
      listeners = sort_func by_port (shown_listeners (active_published_ports m.states) m.listeners);
      forwards = sort_func compare_forward_status (values m.states);
      working_directory_rules = m.intent.working_directory_rules;
      ignored_apps = m.intent.ignored_apps;
    })

module _ (glob : Doublestar) where
  unfoldable pub set_listeners : List Listener → Manager → Manager
  unfolding collect_listeners
  set_listeners listeners m =
      if m.closed
      then m
      else record (reconcile_forwards glob
          (record m { listeners = collect_listeners [] listeners })) {
            discovery = record { state = DiscoveryState.active; diagnostic = [] };
          }

  unfoldable pub set_discovery : DiscoveryState → Str → Manager → Manager
  set_discovery state diagnostic m =
      if m.closed
      then m
      else let m' = record m { discovery = record { state = state; diagnostic = diagnostic } } in
        elim state [
          | DiscoveryState.failed ↦ reconcile_forwards glob (record m' { listeners = [] })
          | _ ↦ m'
        ]

  -- The part of `UpdateIntent` after the normalisation.
  unfoldable pub adopt_intent :
      Bool → Result IntentError ForwardingIntent → Manager → Manager × Option ManagerError
  adopt_intent done_inside (err e) m = (m, some (invalid_intent e))
  adopt_intent done_inside (ok intent) m =
      if done_inside
      then (m, some context_done)
      else if m.closed
      then (m, some manager_closed)
      else (
        reconcile_forwards glob (record m {
          intent = intent;
          reserved_local_ports =
              reserved_local_ports intent.published_forwards intent.reserved_local_ports;
        }),
        none,
      )

  -- `UpdateIntent`; the two Booleans say that the context is done at the first and at the second
  -- test.
  unfoldable pub update_intent :
      Bool → Bool → ForwardingIntent → Manager → Manager × Option ManagerError
  unfolding adopt_intent
  update_intent done_before done_inside raw m =
      if done_before
      then (m, some context_done)
      else adopt_intent done_inside (normalize_intent glob raw) m

  -- `forwardStopped` for the worker with this identity, given the worker that the map holds.
  unfoldable pub worker_gone : Option Worker → ForwardKey → ℕ → Manager → Manager
  worker_gone none k worker m = m
  worker_gone (some w) k worker m =
      let m' = record m {
        forward_workers = delete k m.forward_workers;
        states = delete k m.states;
      } in
      if not (w.id == worker) then m else if m.closed then m' else reconcile_forwards glob m'

  unfoldable pub forward_stopped : ForwardKey → ℕ → Manager → Manager
  unfolding worker_gone
  forward_stopped k worker m = worker_gone (lookup k m.forward_workers) k worker m
