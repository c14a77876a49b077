-- ===== src/Core/Manager/Runs.antt =====
-- Histories: the operations in any order that the goroutines call them in.
use ssh_forward.Core.Desired.{Doublestar}
use ssh_forward.Core.Manager.{Manager, new_manager}
use ssh_forward.Core.Manager.Invariant.{Inv}
use ssh_forward.Core.Manager.Operations.{
  close, forward_stopped, set_discovery, set_forward_state, set_listeners, update_intent,
}
use ssh_forward.Core.Manager.Preserved.{
  close-Inv, new_manager-Inv, set_discovery-Inv, set_listeners-Inv, update_intent-Inv,
}
use ssh_forward.Core.Manager.Workers.{forward_stopped-Inv, set_forward_state-Inv}
use ssh_forward.Core.Types.{
  DiscoveryState, ForwardKey, ForwardState, ForwardTarget, ForwardingIntent, Listener, direction_eq,
  key_eq, state_eq, target_eq,
}
use ssh_forward.Prelude.{Bool, List, Str, [], bool_eq, nat_eq, ok, str_eq, ℕ, ◌∷◌, ◌≡◌}

-- A call of an operation. `reported` and `stopped` name the worker by its key and its identity.
pub data Event : Type 0 where
  scanned : List Listener → Event
  discovery_changed : DiscoveryState → Str → Event
  intent_changed : Bool → Bool → ForwardingIntent → Event
  reported : ForwardKey → ℕ → ForwardState → Str → ForwardTarget → Event
  stopped : ForwardKey → ℕ → Event
  closing : Event

module _ (glob : Doublestar) where
  unfoldable pub apply_event : Event → Manager → Manager
  apply_event (scanned ls) m = set_listeners glob ls m
  apply_event (discovery_changed state diagnostic) m = set_discovery glob state diagnostic m
  apply_event (intent_changed before inside raw) m = (update_intent glob before inside raw m).0
  apply_event (reported k worker state diagnostic target) m =
      set_forward_state k worker state diagnostic target m
  apply_event (stopped k worker) m = forward_stopped glob k worker m
  apply_event closing m = close m

  unfoldable pub run_events : List Event → Manager → Manager
  unfolding apply_event
  run_events [] m = m
  run_events (e ∷ rest) m = run_events rest (apply_event e m)

  apply_event-Inv : (e : Event) (m : Manager) → Inv glob m → Inv glob (apply_event e m)
  unfolding apply_event
  apply_event-Inv (scanned ls) m v = set_listeners-Inv glob ls m v
  apply_event-Inv (discovery_changed state diagnostic) m v =
      set_discovery-Inv glob state diagnostic m v
  apply_event-Inv (intent_changed before inside raw) m v =
      update_intent-Inv glob before inside raw m v
  apply_event-Inv (reported k worker state diagnostic target) m v =
      set_forward_state-Inv glob k worker state diagnostic target m v
  apply_event-Inv (stopped k worker) m v = forward_stopped-Inv glob k worker m v
  apply_event-Inv closing m v = close-Inv glob m v

  run_events-Inv : (es : List Event) (m : Manager) → Inv glob m → Inv glob (run_events es m)
  unfolding run_events
  run_events-Inv [] m v = v
  run_events-Inv (e ∷ es) m v = run_events-Inv es (apply_event e m) (apply_event-Inv e m v)

  -- After any history of a manager that `newManager` made, every worker stands under the key of its
  -- forward and has a status, every status is that of its key, no two keys share a worker, and, while
  -- the manager is open, every wanted forward has a status, no other key has one but for workers that
  -- still run, and a worker that was not told to stop runs the forward that is wanted.
  pub run_new_manager-Inv :
      (host : Str) (raw : ForwardingIntent) (m : Manager) (es : List Event)
      → new_manager glob host raw ≡ ok m
      → Inv glob (run_events es m)
  run_new_manager-Inv host raw m es made =
      run_events-Inv es m (new_manager-Inv glob host raw m made)
