-- ===== src/Openssh/Forward/Cleanup.antt =====
-- When `Forward` cancels what it has installed.
use ssh_forward.Core.Types.{ForwardTarget, direction_eq, key_eq, state_eq, target_eq}
use ssh_forward.Openssh.Control.{CommandRun, ControlForward}
use ssh_forward.Openssh.Forward.{
  ForwardInput, Moment, adapter_forward, cancel_forward, hold_forward, is_current,
}
use ssh_forward.Openssh.Forward.Watched.{
  IsInstalled, cancellations, reports, reports-adapter_forward,
}
use ssh_forward.Prelude.{
  Bool, Option, arith, bool_eq, is_some, nat_eq, none, some, str_eq, true, ℕ, ◌↔◌, ◌≡◌,
}

module _ (test : Option ControlForward → Bool) where
  cancels-cancel_forward :
      (master : ℕ) (f : ControlForward) (now : Moment) (run : CommandRun)
      → (reports (cancellations test) (cancel_forward master f now run) ≡ true)
        ↔ (test (some f) ≡ true)
          × (is_current now.adapter master ≡ true)
          × (now.ended master ≡ none)
  unfolding cancel_forward
  cancels-cancel_forward master f now run =
      (λ h. (ground arith, ground arith, ground arith), λ h. ground arith)

  cancels-hold_forward :
      (target : ForwardTarget) (master : ℕ) (f : ControlForward) (input : ForwardInput)
      → (reports (cancellations test) (hold_forward target master f input).actions ≡ true)
        ↔ (test (some f) ≡ true)
          × (is_some (hold_forward target master f input).error ≡ true)
          × (is_current input.cleaning.adapter master ≡ true)
          × (input.cleaning.ended master ≡ none)
  unfolding hold_forward
  cancels-hold_forward target master f input =
      let cancels = cancels-cancel_forward master f input.cleaning input.cancel in
      (
        λ h. (
          ground (arith, cancels),
          ground (arith, cancels),
          ground (arith, cancels),
          ground (arith, cancels),
        ),
        λ h. ground (arith, cancels),
      )

  -- Forward cancels exactly what it has installed. Among the forwards that pass any test it cancels one
  -- exactly when it has installed one that passes it and then ends, by a failed confirmation or by the
  -- end of its context or of the master, while the master that it was installed on is still running and
  -- still the current one; it cancels no other forward, and nothing on another master.
  pub adapter_forward-cancels :
      (target : ForwardTarget) (input : ForwardInput)
      → (reports (cancellations test) (adapter_forward target input).actions ≡ true)
        ↔ (master : ℕ) × (f : ControlForward) × IsInstalled target input master f
          × (test (some f) ≡ true)
          × (is_some (hold_forward target master f input).error ≡ true)
          × (is_current input.cleaning.adapter master ≡ true)
          × (input.cleaning.ended master ≡ none)
  adapter_forward-cancels target input =
      let watched = reports-adapter_forward (cancellations test) target input in
      (
        λ h.
            let (master, f, e, held) = watched.0 h in
            let ended = (cancels-hold_forward target master f input).0 held in
            (master, f, e, ended.0, ended.1, ended.2, ended.3),
        λ (master, f, e, passes, finished, current, live). watched.1 (
          master,
          f,
          e,
          (cancels-hold_forward target master f input).1 (passes, finished, current, live),
        ),
      )
