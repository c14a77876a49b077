-- ===== src/Openssh/Forward.antt =====
-- The life of one forward: `cli/internal/openssh/forward.go`, with the master of
-- `cli/internal/openssh/master.go`, `cancelForward` of `control.go` and the verdict of
-- `remote_bind.go`. A master is the number of its generation. What other goroutines, processes and
-- timers answer is an argument; what the adapter does is the list of its actions.
pub mod Watched
pub mod Ready
pub mod Failures
pub mod Cleanup
pub mod Closed
use ssh_forward.Core.Reconcile.{waits}
use ssh_forward.Core.Types.{
  Error, ForwardDirection, ForwardTarget, backend, direction_eq, key_eq, local_to_remote, message,
  remote_to_local, state_eq, target_eq, transport_unavailable, unset, wrap,
}
use ssh_forward.Openssh.Control.{
  CommandRun, ControlCommandError, ControlForward, Operation, cancel, check, exit, forward,
  run_control_command,
}
use ssh_forward.Openssh.Snapshot.{proc_v4_loopback, proc_v4_mapped, proc_v6_wildcard, socket_eq}
use ssh_forward.Prelude.{
  Bool, List, Option, Result, Str, [], bool_eq, bytes, err, false, format_uint, if◌then◌else◌,
  is_some, length, nat_eq, none, not, ok, some, split_at, str_eq, to_upper, trim_space, true,
  value_or, ℕ, ◌&&◌, ◌++◌, ◌==◌, ◌||◌, ◌∷◌,
}

-- The part of the state that the mutex guards.
pub record Adapter : Type 0 where
  pub closed : Bool
  pub master : Option ℕ

-- The adapter when its mutex is taken, and the failure of each master that has ended by then.
pub record Moment : Type 0 where
  pub adapter : Adapter
  pub ended : ℕ → Option Error

abbrev pub is_current : Adapter → ℕ → Bool
is_current a master = elim a.master [ none ↦ false | some current ↦ current == master ]

-- A command to the master, the start and the end of a master, and the call of `ready`.
pub data Action : Type 0 where
  control : Operation → Option ControlForward → Action
  start_master : Action
  stop_master : ℕ → Action
  report_ready : Action

-- What `awaitReady` receives: the end of the context, the end of the master, the deadline, or a tick
-- with the answer of the probe.
pub data WaitEvent : Type 0 where
  over : Error → WaitEvent
  master_ended : Error → WaitEvent
  deadline : WaitEvent
  tick : Bool → WaitEvent

-- `awaitReady`; `none` while it waits.
unfoldable pub await_ready : Str → List WaitEvent → Option (Option Error)
await_ready diagnostic [] = none
await_ready diagnostic (event ∷ rest) = elim event [
  | over e ↦ some (some e)
  | master_ended e ↦ some (some e)
  | deadline ↦ some (some (Error.backend diagnostic))
  | tick true ↦ some none
  | tick false ↦ await_ready diagnostic rest
]

-- What happens in `ensureMaster`: whether the alias is valid, the error of the context after a test
-- that failed, the new master or the error of its start, and the events of the wait for it.
pub record EnsureInput : Type 0 where
  pub found : Moment
  pub valid_alias : Bool
  pub over_after : Option Error
  pub fresh : Result Error ℕ
  pub waits : List WaitEvent

pub data Ensured : Type 0 where
  unavailable : Error → Ensured
  waiting : Ensured
  available : ℕ → Ensured

-- The commands of the probe of `waitForMaster`, one for each tick.
unfoldable pub probes : List WaitEvent → List Action
probes [] = []
probes (event ∷ rest) = elim event [
  | over e ↦ []
  | master_ended e ↦ []
  | deadline ↦ []
  | tick true ↦ control Operation.check none ∷ []
  | tick false ↦ control Operation.check none ∷ probes rest
]

-- The part of `ensureMaster` that follows the test for a running master.
unfoldable pub launch_master : EnsureInput → Adapter → Ensured × (Adapter × List Action)
unfolding await_ready probes
launch_master input a =
    let exits = control Operation.exit none ∷ [] in
    let started = exits ++ start_master ∷ probes input.waits in
    if not input.valid_alias
    then (unavailable (value_or input.over_after (Error.backend (bytes "invalid_alias"))), (a, []))
    else elim input.fresh [
      | err e ↦ (unavailable e, (a, exits))
      | ok master ↦ elim (await_ready (bytes "master_start_timeout") input.waits) [
        | none ↦ (waiting, (a, started))
        | some (some e) ↦ (unavailable e, (a, started ++ stop_master master ∷ []))
        | some none ↦
            (available master, (record { closed = a.closed; master = some master }, started))
      ]
    ]

unfoldable pub ensure_master : Option Error → EnsureInput → Ensured × (Adapter × List Action)
unfolding launch_master
ensure_master (some e) input = (unavailable e, (input.found.adapter, []))
ensure_master none input =
    let a = input.found.adapter in
    if a.closed
    then (unavailable (Error.message (bytes "OpenSSH adapter is closed")), (a, []))
    else elim a.master [
      | none ↦ launch_master input a
      | some master ↦ elim (input.found.ended master) [
        | none ↦ (available master, (a, []))
        | some e ↦ launch_master input (record { closed = a.closed; master = none })
      ]
    ]

-- `Close`
unfoldable pub close_adapter : Adapter → Adapter × List Action
close_adapter a = if a.closed then (a, []) else (
  record { closed = true; master = none },
  elim a.master [ none ↦ [] | some master ↦ stop_master master ∷ [] ],
)

-- `controlForwardFor`
unfoldable pub control_forward_for : ForwardTarget → Result Error ControlForward
control_forward_for target = elim target.direction [
  | ForwardDirection.remote_to_local ↦ ok (record {
    flag = bytes "-L";
    spec =
        bytes "0.0.0.0:"
        ++ format_uint 10 target.local_port
        ++ bytes ":127.0.0.1:"
        ++ format_uint 10 target.remote_port;
  })
  | ForwardDirection.local_to_remote ↦ ok (record {
    flag = bytes "-R";
    spec =
        bytes "127.0.0.1:"
        ++ format_uint 10 target.remote_port
        ++ bytes ":127.0.0.1:"
        ++ format_uint 10 target.local_port;
  })
  | ForwardDirection.unset ↦ err (Error.backend (bytes "invalid_forward_direction"))
]

-- The answers to the two commands of `startForward`.
pub record StartInput : Type 0 where
  pub install : CommandRun
  pub check : CommandRun

-- The error of `startForward`: a failed command, or the conflict that a rejection is read as.
pub data StartError : Type 0 where
  failed : ControlCommandError → StartError
  conflict : Error → StartError

unfoldable pub start_control_forward :
    ForwardDirection → ControlForward → StartInput → Option StartError × List Action
start_control_forward direction f input =
    let install = control Operation.forward (some f) in
    elim (run_control_command Operation.forward input.install) [
      | none ↦ (none, install ∷ [])
      | some failure ↦ if not failure.rejected then (some (failed failure), install ∷ []) else (
        some (elim (run_control_command Operation.check input.check) [
          | some _ ↦ failed failure
          | none ↦ conflict (
              Error.backend (
                if direction == ForwardDirection.local_to_remote
                then bytes "remote_port_unavailable"
                else bytes "local_port_conflict"))
        ]),
        install ∷ control Operation.check none ∷ [],
      )
    ]

-- The error that `Forward` returns, and the clean-up of an uncertain installation.
abbrev pub error_of : StartError → Error
error_of (failed failure) = Error.wrap [] failure.diagnostic
error_of (conflict e) = e

abbrev pub retired : ℕ → StartError → List Action
retired master (failed failure) = if failure.uncertain then stop_master master ∷ [] else []
retired master (conflict e) = []

-- The part of `Forward` that holds the mutex.
unfoldable pub install_forward :
    ForwardDirection → ControlForward → ℕ → Moment → StartInput → Option Error × List Action
unfolding start_control_forward
install_forward direction f master now input =
    if not (is_current now.adapter master)
    then (some (Error.backend transport_unavailable), [])
    else elim (now.ended master) [
      | some e ↦ (some e, [])
      | none ↦
          let (problem, actions) = start_control_forward direction f input in
          elim problem [
            | none ↦ (none, actions)
            | some e ↦ (some (error_of e), actions ++ retired master e)
          ]
    ]

-- `cancelForward`
unfoldable pub cancel_forward : ℕ → ControlForward → Moment → CommandRun → List Action
cancel_forward master f now run =
    if not (is_current now.adapter master) then [] else elim (now.ended master) [
      | some e ↦ []
      | none ↦
          control Operation.cancel (some f)
          ∷ (if is_some (run_control_command Operation.cancel run)
              then stop_master master ∷ []
              else [])
    ]

-- The run of the probe of a remote bind: whether it fails, the errors of the caller's context and of
-- the probe's own, the failure of the master if it has ended, and the output.
pub record ProbeRun : Type 0 where
  pub fails : Bool
  pub context_error : Option Error
  pub probe_over : Bool
  pub master_failure : Option Error
  pub output : Str

-- The loop of `classifyRemoteBind` over the lines.
unfoldable pub classify_lines : List Str → Option Error
classify_lines [] = none
classify_lines (line ∷ rest) =
    let address = to_upper (trim_space line) in
    let later = classify_lines rest in
    if address == proc_v4_loopback || address == proc_v4_mapped
    then later
    else if not (length address == length proc_v4_loopback)
        && not (length address == length proc_v6_wildcard)
    then some (Error.backend (bytes "remote_bind_unverified"))
    else some (Error.backend (bytes "remote_bind_not_loopback"))

unfoldable pub classify_remote_bind : Str → Option Error
unfolding classify_lines
classify_remote_bind output =
    let text = trim_space output in
    if text == [] || text == bytes "unavailable"
    then some (Error.backend (bytes "remote_bind_unverified"))
    else classify_lines (split_at b'\n' text)

-- `verifyRemoteLoopbackForward`
unfoldable pub verify_remote_loopback_forward : ProbeRun → Option Error
unfolding classify_remote_bind
verify_remote_loopback_forward run =
    let unverified = Error.backend (bytes "remote_bind_unverified") in
    if not run.fails then classify_remote_bind run.output else elim run.context_error [
      | some e ↦ some e
      | none ↦
          if run.probe_over then some unverified else some (value_or run.master_failure unverified)
    ]

-- What happens in `Forward`, in the order of the code; `over` is the end of the context or of the
-- master after the forward is ready.
pub record ForwardInput : Type 0 where
  pub ctx : Option Error
  pub ensure : EnsureInput
  pub port_available : Option (ℕ → Bool)
  pub installing : Moment
  pub start : StartInput
  pub waits : List WaitEvent
  pub probe : ProbeRun
  pub over : Option Error
  pub cleaning : Moment
  pub cancel : CommandRun

-- The error that it returns, `none` while it runs, and what it has done.
pub record ForwardRun : Type 0 where
  pub error : Option Error
  pub actions : List Action

unfoldable pub confirm_forward : ForwardTarget → ForwardInput → Option (Option Error)
unfolding await_ready verify_remote_loopback_forward
confirm_forward target input = elim target.direction [
  | ForwardDirection.remote_to_local ↦ await_ready (bytes "forward_start_timeout") input.waits
  | ForwardDirection.local_to_remote ↦ some (verify_remote_loopback_forward input.probe)
  | ForwardDirection.unset ↦ some none
]

-- The test of the local port before an import.
unfoldable pub is_port_taken : ForwardTarget → Option (ℕ → Bool) → Bool
is_port_taken target none = false
is_port_taken target (some free) =
    target.direction == ForwardDirection.remote_to_local && not (free target.local_port)

-- What follows the installation.
unfoldable pub hold_forward : ForwardTarget → ℕ → ControlForward → ForwardInput → ForwardRun
unfolding confirm_forward cancel_forward
hold_forward target master f input =
    let cleanup = cancel_forward master f input.cleaning input.cancel in
    elim (confirm_forward target input) [
      | none ↦ record { error = none; actions = [] }
      | some (some e) ↦ record { error = some e; actions = cleanup }
      | some none ↦ elim input.over [
        | none ↦ record { error = none; actions = report_ready ∷ [] }
        | some e ↦ record { error = some e; actions = report_ready ∷ cleanup }
      ]
    ]

-- What follows once there is a master and a command.
unfoldable pub run_forward : ForwardTarget → ℕ → ControlForward → ForwardInput → ForwardRun
unfolding is_port_taken install_forward hold_forward
run_forward target master f input =
    if is_port_taken target input.port_available
    then record { error = some (Error.backend (bytes "local_port_conflict")); actions = [] }
    else let (problem, actions) =
        install_forward target.direction f master input.installing input.start in
      elim problem [
        | some e ↦ record { error = some e; actions = actions }
        | none ↦
            let held = hold_forward target master f input in
            record held { actions = actions ++ held.actions }
      ]

unfoldable pub use_master : ForwardTarget → ForwardInput → List Action → Ensured → ForwardRun
unfolding control_forward_for run_forward
use_master target input done (unavailable e) = record { error = some e; actions = done }
use_master target input done waiting = record { error = none; actions = done }
use_master target input done (available master) = elim (control_forward_for target) [
  | err e ↦ record { error = some e; actions = done }
  | ok f ↦
      let run = run_forward target master f input in record run { actions = done ++ run.actions }
]

-- `Forward`
unfoldable pub adapter_forward : ForwardTarget → ForwardInput → ForwardRun
unfolding ensure_master use_master
adapter_forward target input =
    let (ensured, after) = ensure_master input.ctx input.ensure in
    use_master target input after.1 ensured
