-- ===== src/Openssh/Forward/Failures.antt =====
-- What a failure of the command that installs a forward means.
use ssh_forward.Core.Types.{
  Error, ForwardDirection, direction_eq, error_diagnostic, key_eq, state_eq, target_eq,
  transport_unavailable,
}
use ssh_forward.Openssh.Control.{
  CommandRun, ControlCommandError, ControlForward, Operation, classify_error, control_failure,
  has_exited, is_refusal, message_of, never_started, ran, run_control_command, was_started,
}
use ssh_forward.Openssh.Forward.{
  Moment, StartInput, control, failed, install_forward, is_current, start_control_forward,
  stop_master,
}
use ssh_forward.Prelude.{
  Bool, Bool-cases, Str, Str-discrete, [], ap, arith, bool_eq, bytes, contains_text, false,
  has_prefix, inl, inr, is_some, nat_eq, none, refl, some, str_eq, to_lower, true, ℕ, ◌&&◌, ◌++◌,
  ◌==◌, ◌||◌, ◌∙◌, ◌∷◌, ◌≡◌, ◌⊎◌,
}

-- The command was started, has ended by itself, in time, and its message is a refusal.
abbrev pub is_refused : CommandRun → Bool
is_refused run = has_exited run && is_refusal (message_of run)

-- The diagnostics that make a worker try another port.
abbrev pub is_conflict : Str → Bool
is_conflict diagnostic =
    diagnostic == bytes "local_port_conflict" || diagnostic == bytes "remote_port_unavailable"

control_failure-uncertain :
    (run : CommandRun)
    → was_started run ≡ true
    → is_refused run ≡ false
    → control_failure run ≡ record {
      diagnostic = Error.backend transport_unavailable;
      uncertain = true;
      rejected = false;
    }
unfolding control_failure
control_failure-uncertain run started unclear = rw (started, unclear) refl

run_control_command-failure :
    (operation : Operation) (run : CommandRun)
    → is_some (run_control_command operation run) ≡ true
    → run_control_command operation run ≡ some (control_failure run)
unfolding run_control_command
run_control_command-failure operation run h = ground arith

abbrev pub uncertain_failure : ControlCommandError
uncertain_failure = record {
  diagnostic = Error.backend transport_unavailable;
  uncertain = true;
  rejected = false;
}

start_control_forward-failed :
    (direction : ForwardDirection) (f : ControlForward) (input : StartInput)
    (failure : ControlCommandError)
    → run_control_command Operation.forward input.install ≡ some failure
    → failure.rejected ≡ false
    → start_control_forward direction f input
      ≡ (some (failed failure), control Operation.forward (some f) ∷ [])
unfolding start_control_forward
start_control_forward-failed direction f input failure h unclear =
    rw (start_control_forward, h, unclear) refl

install_forward-uncertain :
    (direction : ForwardDirection) (f : ControlForward) (master : ℕ) (now : Moment)
    (input : StartInput)
    → is_current now.adapter master ≡ true
    → now.ended master ≡ none
    → is_some (run_control_command Operation.forward input.install) ≡ true
    → was_started input.install ≡ true
    → is_refused input.install ≡ false
    → install_forward direction f master now input ≡ (
      some (Error.wrap [] (Error.backend transport_unavailable)),
      control Operation.forward (some f) ∷ stop_master master ∷ [],
    )
unfolding install_forward
install_forward-uncertain direction f master now input current live fails started unclear =
    let failure =
      run_control_command-failure Operation.forward input.install fails
      ∙ ap some (control_failure-uncertain input.install started unclear) in
    let start = start_control_forward-failed direction f input uncertain_failure failure refl in
    rw (install_forward, current, live, start)
      (ap
        (λ p. (
          some (Error.wrap [] (Error.backend transport_unavailable)),
          p.1 ++ stop_master master ∷ [],
        ))
        start)

start_cases : (run : CommandRun) → (run ≡ never_started) ⊎ (was_started run ≡ true)
start_cases never_started = inl refl
start_cases (ran process) = inr refl

fails_unstarted : is_some (run_control_command Operation.forward never_started) ≡ true
unfolding run_control_command
fails_unstarted = refl

never_started_failure : control_failure never_started ≡ record {
  diagnostic = Error.backend transport_unavailable;
  uncertain = false;
  rejected = false;
}
unfolding control_failure classify_error contains_text has_prefix to_lower Str-discrete
never_started_failure = refl

install_forward-never_started :
    (direction : ForwardDirection) (f : ControlForward) (master : ℕ) (now : Moment)
    (input : StartInput)
    → is_current now.adapter master ≡ true
    → now.ended master ≡ none
    → input.install ≡ never_started
    → install_forward direction f master now input ≡ (
      some (Error.wrap [] (Error.backend transport_unavailable)),
      control Operation.forward (some f) ∷ [],
    )
unfolding install_forward
install_forward-never_started direction f master now input current live unstarted =
    let quiet : ControlCommandError = record {
      diagnostic = Error.backend transport_unavailable;
      uncertain = false;
      rejected = false;
    } in
    let failure : run_control_command Operation.forward input.install ≡ some quiet = rw unstarted (
      run_control_command-failure Operation.forward never_started fails_unstarted
      ∙ ap some never_started_failure) in
    let start = start_control_forward-failed direction f input quiet failure refl in
    rw (install_forward, current, live, start)
      (ap (λ p. (some (Error.wrap [] (Error.backend transport_unavailable)), p.1 ++ [])) start)

-- With the mutex held, an installation whose command fails either leaves no doubt or retires the master.
-- If its process was started and did not end in time with an explicit refusal, the master is stopped
-- at once and the error is transport_unavailable; if no process was started, nothing else is done and
-- the error is transport_unavailable too. So an error that makes a worker try the next port comes from
-- an explicit refusal of a command that ended.
pub install_forward-error :
    (direction : ForwardDirection) (f : ControlForward) (master : ℕ) (now : Moment)
    (input : StartInput)
    → is_current now.adapter master ≡ true
    → now.ended master ≡ none
    → is_some (run_control_command Operation.forward input.install) ≡ true
    → (was_started input.install ≡ true
        → is_refused input.install ≡ false
        → install_forward direction f master now input ≡ (
          some (Error.wrap [] (Error.backend transport_unavailable)),
          control Operation.forward (some f) ∷ stop_master master ∷ [],
        ))
      × (input.install ≡ never_started
          → install_forward direction f master now input ≡ (
            some (Error.wrap [] (Error.backend transport_unavailable)),
            control Operation.forward (some f) ∷ [],
          ))
      × (is_conflict (error_diagnostic (install_forward direction f master now input).0) ≡ true
          → is_refused input.install ≡ true)
unfolding error_diagnostic
install_forward-error direction f master now input current live fails =
    let uncertain = install_forward-uncertain direction f master now input current live fails in
    let unstarted = install_forward-never_started direction f master now input current live in
    (
      uncertain,
      unstarted,
      λ conflicts. elim (Bool-cases (is_refused input.install)) [
        | inl refused ↦ refused
        | inr unclear ↦ elim (start_cases input.install) [
          | inl idle ↦
              absurd (ground (arith, ap (λ r. is_conflict (error_diagnostic r.0)) (unstarted idle)))
          | inr started ↦ absurd (
              ground
                (arith, ap (λ r. is_conflict (error_diagnostic r.0)) (uncertain started unclear)))
        ]
      ],
    )
