-- ===== src/Openssh/Forward/Watched.antt =====
-- The actions of a forward that are watched: the calls of `ready`, or the cancellations.
use ssh_forward.Core.Types.{
  Error, ForwardDirection, ForwardTarget, direction_eq, key_eq, state_eq, target_eq,
}
use ssh_forward.Openssh.Control.{ControlForward, Operation, run_control_command}
use ssh_forward.Openssh.Forward.{
  Action, Adapter, EnsureInput, Ensured, ForwardInput, Moment, StartError, StartInput, WaitEvent,
  adapter_forward, available, conflict, control, control_forward_for, ensure_master, failed,
  hold_forward, install_forward, is_current, is_port_taken, launch_master, probes, report_ready,
  retired, run_forward, start_control_forward, start_master, stop_master, unavailable, use_master,
  waiting,
}
use ssh_forward.Prelude.{
  Bool, List, Option, Option-cases, Result-cases, [], arith, bool_eq, false, inl, inr, nat_eq, none,
  ok, refl, some, str_eq, sym, true, ℕ, ◌++◌, ◌||◌, ◌↔◌, ◌∙◌, ◌∷◌, ◌≡◌,
}

-- The calls of `ready`, or the cancellations of the forwards that pass a test.
pub data Watched : Type 0 where
  ready_calls : Watched
  cancellations : (Option ControlForward → Bool) → Watched

abbrev pub watches_ready : Watched → Bool
watches_ready ready_calls = true
watches_ready (cancellations test) = false

abbrev pub watches_cancel : Watched → Operation → Option ControlForward → Bool
watches_cancel ready_calls operation f = false
watches_cancel (cancellations test) operation f = elim operation [
  | Operation.cancel ↦ test f
  | _ ↦ false
]

module _ (target : ForwardTarget) (input : ForwardInput) (master : ℕ) (f : ControlForward) where
  -- The forward is installed on a live master that is the current one.
  pub record IsInstalled : Type 0 where
    pub ensured : (ensure_master input.ctx input.ensure).0 ≡ available master
    pub built : control_forward_for target ≡ ok f
    pub free : is_port_taken target input.port_available ≡ false
    pub current : is_current input.installing.adapter master ≡ true
    pub live : input.installing.ended master ≡ none
    pub accepted : run_control_command Operation.forward input.start.install ≡ none

module _ (watched : Watched) where
  abbrev pub reports : List Action → Bool
  reports [] = false
  reports (action ∷ rest) = elim action [
    | report_ready ↦ watches_ready watched || reports rest
    | control operation f ↦ watches_cancel watched operation f || reports rest
    | start_master ↦ reports rest
    | stop_master master ↦ reports rest
  ]

  reports-append :
      (before after : List Action) → reports (before ++ after) ≡ (reports before || reports after)
  reports-append [] after = refl
  reports-append (control operation f ∷ before) after = ground (arith, reports-append before after)
  reports-append (start_master ∷ before) after = reports-append before after
  reports-append (stop_master master ∷ before) after = reports-append before after
  reports-append (report_ready ∷ before) after = ground (arith, reports-append before after)

  reports-probes : (events : List WaitEvent) → reports (probes events) ≡ false
  unfolding probes
  reports-probes [] = refl
  reports-probes (event ∷ rest) = ground (arith, reports-probes rest)

  reports-launch_master :
      (input : EnsureInput) (a : Adapter) → reports (launch_master input a).1.1 ≡ false
  unfolding launch_master
  reports-launch_master input a =
      let quiet = reports-probes input.waits in
      elim (Result-cases input.fresh) [
        | inl (e, refused) ↦ ground (arith, refused)
        | inr (master, begun) ↦
            ground
              (arith, begun, quiet, reports-append (probes input.waits) (stop_master master ∷ []))
      ]

  reports-ensure_master :
      (ctx : Option Error) (input : EnsureInput) → reports (ensure_master ctx input).1.1 ≡ false
  unfolding ensure_master
  reports-ensure_master (some e) input = refl
  reports-ensure_master none input = ground (
    arith,
    reports-launch_master input input.found.adapter,
    reports-launch_master input (record { closed = input.found.adapter.closed; master = none }),
  )

  reports-start_control_forward :
      (direction : ForwardDirection) (f : ControlForward) (input : StartInput)
      → reports (start_control_forward direction f input).1 ≡ false
  unfolding start_control_forward
  reports-start_control_forward direction f input = ground arith

  reports-retired : (master : ℕ) (e : StartError) → reports (retired master e) ≡ false
  reports-retired master (failed failure) = ground arith
  reports-retired master (conflict e) = refl

  reports-install_forward :
      (direction : ForwardDirection) (f : ControlForward) (master : ℕ) (now : Moment)
      (input : StartInput)
      → reports (install_forward direction f master now input).1 ≡ false
  unfolding install_forward
  reports-install_forward direction f master now input =
      let start = start_control_forward direction f input in
      elim (Option-cases start.0) [
        | inl none_left ↦ ground (arith, reports-start_control_forward direction f input)
        | inr (e, some_left) ↦ ground (
          arith,
          reports-start_control_forward direction f input,
          reports-append start.1 (retired master e),
          reports-retired master e,
        )
      ]

  module _ (target : ForwardTarget) (input : ForwardInput) (master : ℕ) (f : ControlForward) where
    installed_iff :
        (install_forward target.direction f master input.installing input.start).0 ≡ none
        ↔ (is_current input.installing.adapter master ≡ true)
          × (input.installing.ended master ≡ none)
          × (run_control_command Operation.forward input.start.install ≡ none)
    unfolding install_forward start_control_forward
    installed_iff = (λ h. (ground arith, ground arith, ground arith), λ h. ground arith)

    reports-run_forward :
        reports (run_forward target master f input).actions ≡ true
        ↔ (is_port_taken target input.port_available ≡ false)
          × ((install_forward target.direction f master input.installing input.start).0 ≡ none)
          × (reports (hold_forward target master f input).actions ≡ true)
    unfolding run_forward
    reports-run_forward =
        let install = install_forward target.direction f master input.installing input.start in
        let quiet =
          reports-install_forward target.direction f master input.installing input.start in
        let joined = reports-append install.1 (hold_forward target master f input).actions in
        (
          λ h. (ground arith, ground (arith, quiet), ground (arith, quiet, joined)),
          λ h. ground (arith, joined),
        )

    installed_reports_iff :
        (ensure_master input.ctx input.ensure).0 ≡ available master
        → control_forward_for target ≡ ok f
        → (reports (run_forward target master f input).actions ≡ true)
          ↔ IsInstalled target input master f
            × (reports (hold_forward target master f input).actions ≡ true)
    installed_reports_iff ensured built = (
      λ h.
          let ran = reports-run_forward.0 h in
          let installed = installed_iff.0 ran.1 in
          (
            record {
              ensured = ensured;
              built = built;
              free = ran.0;
              current = installed.0;
              live = installed.1;
              accepted = installed.2;
            },
            ran.2,
          ),
      λ (e, held).
          reports-run_forward.1 (e.free, installed_iff.1 (e.current, e.live, e.accepted), held),
    )

  reports-available :
      (target : ForwardTarget) (input : ForwardInput) (done : List Action) (master : ℕ)
      (f : ControlForward)
      → reports done ≡ false
      → control_forward_for target ≡ ok f
      → reports (use_master target input done (available master)).actions
        ≡ reports (run_forward target master f input).actions
  unfolding use_master
  reports-available target input done master f quiet built =
      let joined = reports-append done (run_forward target master f input).actions in
      rw (use_master, built, joined, quiet) refl

  reports-use_master :
      (target : ForwardTarget) (input : ForwardInput) (done : List Action) (ensured : Ensured)
      → reports done ≡ false
      → reports (use_master target input done ensured).actions ≡ true
      → (master : ℕ) × (f : ControlForward) × (ensured ≡ available master)
        × (control_forward_for target ≡ ok f)
        × (reports (run_forward target master f input).actions ≡ true)
  unfolding use_master
  reports-use_master target input done (unavailable e) quiet h = absurd (ground arith)
  reports-use_master target input done waiting quiet h = absurd (ground arith)
  reports-use_master target input done (available master) quiet h =
      elim (Result-cases (control_forward_for target)) [
        | inl (e, refused) ↦ absurd (ground (arith, refused, quiet))
        | inr (f, built) ↦ (
          master,
          f,
          refl,
          built,
          sym (reports-available target input done master f quiet built) ∙ h,
        )
      ]

  reports-of_installed :
      (target : ForwardTarget) (input : ForwardInput) (master : ℕ) (f : ControlForward)
      → IsInstalled target input master f
      → reports (hold_forward target master f input).actions ≡ true
      → reports (adapter_forward target input).actions ≡ true
  unfolding adapter_forward
  reports-of_installed target input master f e held =
      let quiet = reports-ensure_master input.ctx input.ensure in
      rw e.ensured (
        reports-available target input (ensure_master input.ctx input.ensure).1.1 master f quiet
          e.built
        ∙ (installed_reports_iff target input master f e.ensured e.built).1 (e, held))

  -- An action that is watched is done exactly by the forward's hold on its installation.
  pub reports-adapter_forward :
      (target : ForwardTarget) (input : ForwardInput)
      → reports (adapter_forward target input).actions ≡ true
        ↔ (master : ℕ) × (f : ControlForward) × IsInstalled target input master f
          × (reports (hold_forward target master f input).actions ≡ true)
  unfolding adapter_forward
  reports-adapter_forward target input =
      let ensured = ensure_master input.ctx input.ensure in
      let quiet = reports-ensure_master input.ctx input.ensure in
      (
        λ h.
            let (master, f, here, built, shown) =
              reports-use_master target input ensured.1.1 ensured.0 quiet h in
            let held = (installed_reports_iff target input master f here built).0 shown in
            (master, f, held.0, held.1),
        λ (master, f, e, held). reports-of_installed target input master f e held,
      )
