-- ===== src/Openssh/Forward/Closed.antt =====
-- An adapter that is closed.
use ssh_forward.Core.Types.{
  Error, ForwardDirection, direction_eq, key_eq, state_eq, target_eq, transport_unavailable,
}
use ssh_forward.Openssh.Control.{CommandRun, ControlForward}
use ssh_forward.Openssh.Forward.{
  Action, Adapter, EnsureInput, Moment, StartInput, cancel_forward, close_adapter, ensure_master,
  install_forward, stop_master,
}
use ssh_forward.Prelude.{
  List, Option, [], bool_eq, false, nat_eq, none, refl, some, str_eq, true, ℕ, ◌++◌, ◌∷◌, ◌≡◌,
}

-- What uses the master of an adapter: `ensureMaster`, or `Close`.
pub data AdapterEvent : Type 0 where
  ensures : Option Error → (ℕ → Option Error) → EnsureInput → AdapterEvent
  closes : AdapterEvent

unfoldable pub run_adapter : Adapter → List AdapterEvent → Adapter × List Action
run_adapter a [] = (a, [])
run_adapter a (ensures ctx ended input ∷ rest) =
    let found : Moment = record { adapter = a; ended = ended } in
    let (ensured, change) = ensure_master ctx (record input { found = found }) in
    let (last, later) = run_adapter change.0 rest in (last, change.1 ++ later)
run_adapter a (closes ∷ rest) =
    let (after, actions) = close_adapter a in
    let (last, later) = run_adapter after rest in (last, actions ++ later)

abbrev closed_adapter : Adapter
closed_adapter = record { closed = true; master = none }

run_closed : (events : List AdapterEvent) → run_adapter closed_adapter events ≡ (closed_adapter, [])
unfolding run_adapter ensure_master close_adapter
run_closed [] = refl
run_closed (ensures none ended input ∷ rest) = run_closed rest
run_closed (ensures (some e) ended input ∷ rest) = run_closed rest
run_closed (closes ∷ rest) = run_closed rest

-- Close of an open adapter stops its master, if it has one, and is final: whatever happens later starts
-- and stops nothing and leaves the adapter closed and without a master, and no forward is then
-- installed or cancelled on any master.
pub close_adapter_lem :
    (a : Adapter) (events : List AdapterEvent)
    → a.closed ≡ false
    → ((close_adapter a).1 ≡ elim a.master [ none ↦ [] | some master ↦ stop_master master ∷ [] ])
      × (run_adapter (close_adapter a).0 events ≡ ((close_adapter a).0, []))
      × ((direction : ForwardDirection) (f : ControlForward) (master : ℕ) (ended : ℕ → Option Error)
            (input : StartInput) (run : CommandRun)
          → let now : Moment = record { adapter = (close_adapter a).0; ended = ended } in
            (install_forward direction f master now input
              ≡ (some (Error.backend transport_unavailable), []))
            × (cancel_forward master f now run ≡ []))
unfolding close_adapter install_forward cancel_forward
close_adapter_lem a events open_still =
    rw open_still (refl, run_closed events, λ direction f master ended input run. (refl, refl))
