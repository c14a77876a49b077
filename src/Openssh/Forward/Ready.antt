-- ===== src/Openssh/Forward/Ready.antt =====
-- When `Forward` calls `ready`.
use mathlib.Core.Path.{subst}
use ssh_forward.Core.Types.{
  ForwardDirection, ForwardTarget, direction_eq, key_eq, state_eq, target_eq,
}
use ssh_forward.Openssh.Control.{CommandRun, ControlForward}
use ssh_forward.Openssh.Forward.{
  ForwardInput, Moment, ProbeRun, WaitEvent, adapter_forward, await_ready, cancel_forward,
  classify_lines, classify_remote_bind, confirm_forward, control_forward_for, deadline,
  hold_forward, master_ended, over, tick, verify_remote_loopback_forward,
}
use ssh_forward.Openssh.Forward.Watched.{IsInstalled, ready_calls, reports, reports-adapter_forward}
use ssh_forward.Openssh.Snapshot.{proc_v4_loopback, proc_v4_mapped, socket_eq}
use ssh_forward.Prelude.{
  All, Bool, Bool-cases, List, Str, [], ap, arith, bool_eq, bytes, false, inl, inr, nat_eq, none,
  ok, refl, some, split_at, str_eq, sym, to_upper, trim_space, true, ℕ, ◌++◌, ◌==◌, ◌||◌, ◌↔◌, ◌∷◌,
  ◌≡◌, ◌⊎◌,
}

reports-cancel_forward :
    (master : ℕ) (f : ControlForward) (now : Moment) (run : CommandRun)
    → reports ready_calls (cancel_forward master f now run) ≡ false
unfolding cancel_forward
reports-cancel_forward master f now run = ground arith

reports-hold_forward :
    (target : ForwardTarget) (master : ℕ) (f : ControlForward) (input : ForwardInput)
    → (reports ready_calls (hold_forward target master f input).actions ≡ true)
      ↔ (confirm_forward target input ≡ some none)
unfolding hold_forward
reports-hold_forward target master f input = (
  λ h. ground (arith, reports-cancel_forward master f input.cleaning input.cancel),
  λ h. ground arith,
)

-- The first event of the wait that is not a probe without success is a successful one.
abbrev pub IsReached : List WaitEvent → Type 0
IsReached events =
    (before : List WaitEvent) × (after : List WaitEvent) × (events ≡ before ++ tick true ∷ after)
    × All (λ (e : WaitEvent). e ≡ tick false) before

await_ready-IsReached :
    (diagnostic : Str) (events : List WaitEvent)
    → await_ready diagnostic events ≡ some none
    → IsReached events
unfolding await_ready
await_ready-IsReached diagnostic [] h = absurd (ground arith)
await_ready-IsReached diagnostic (over e ∷ rest) h = absurd (ground arith)
await_ready-IsReached diagnostic (master_ended e ∷ rest) h = absurd (ground arith)
await_ready-IsReached diagnostic (deadline ∷ rest) h = absurd (ground arith)
await_ready-IsReached diagnostic (tick true ∷ rest) h = ([], rest, refl, tt)
await_ready-IsReached diagnostic (tick false ∷ rest) h =
    let (before, after, e, idle) = await_ready-IsReached diagnostic rest h in
    (tick false ∷ before, after, ap (λ es. tick false ∷ es) e, (refl, idle))

await_ready-of_idle :
    (diagnostic : Str) (before after : List WaitEvent)
    → All (λ (e : WaitEvent). e ≡ tick false) before
    → await_ready diagnostic (before ++ tick true ∷ after) ≡ some none
unfolding await_ready
await_ready-of_idle diagnostic [] after idle = refl
await_ready-of_idle diagnostic (e ∷ before) after idle =
    subst (λ x. await_ready diagnostic (x ∷ before ++ tick true ∷ after) ≡ some none) (sym idle.0)
      (await_ready-of_idle diagnostic before after idle.1)

-- A line of the output of the probe is an address on the loopback.
abbrev pub is_loopback : Str → Bool
is_loopback line =
    to_upper (trim_space line) == proc_v4_loopback || to_upper (trim_space line) == proc_v4_mapped

-- The probe has succeeded, and has printed addresses, each on the loopback.
pub record IsBoundToLoopback (probe : ProbeRun) : Type 0 where
  pub succeeded : probe.fails ≡ false
  pub found : (trim_space probe.output == []) ≡ false
  pub known : (trim_space probe.output == bytes "unavailable") ≡ false
  pub loopback : All (λ line. is_loopback line ≡ true) (split_at b'\n' (trim_space probe.output))

classify_lines_iff :
    (lines : List Str) → (classify_lines lines ≡ none) ↔ All (λ line. is_loopback line ≡ true) lines
unfolding classify_lines
classify_lines_iff [] = (λ h. tt, λ h. refl)
classify_lines_iff (line ∷ rest) =
    let later = classify_lines_iff rest in
    elim (Bool-cases (is_loopback line)) [
      | inl here ↦
          (λ h. (here, later.0 (ground (arith, here))), λ h. ground (arith, here, later.1 h.1))
      | inr elsewhere ↦
          (λ h. absurd (ground (arith, elsewhere)), λ h. absurd (ground (arith, elsewhere, h.0)))
    ]

verified_iff :
    (probe : ProbeRun) → (verify_remote_loopback_forward probe ≡ none) ↔ IsBoundToLoopback probe
unfolding verify_remote_loopback_forward classify_remote_bind
verified_iff probe =
    let lines = classify_lines_iff (split_at b'\n' (trim_space probe.output)) in
    (
      λ h. record {
        succeeded = ground arith;
        found = ground arith;
        known = ground arith;
        loopback = lines.0 (ground arith);
      },
      λ b. ground (arith, b.succeeded, b.found, b.known, lines.1 b.loopback),
    )

-- An import is reached at its local port, or a publication is bound to the remote loopback alone.
abbrev pub IsConfirmed : ForwardTarget → ForwardInput → Type 0
IsConfirmed target input =
    ((target.direction ≡ ForwardDirection.remote_to_local) × IsReached input.waits)
    ⊎ ((target.direction ≡ ForwardDirection.local_to_remote) × IsBoundToLoopback input.probe)

direction_cases :
    (d : ForwardDirection)
    → (d ≡ ForwardDirection.remote_to_local)
      ⊎ ((d ≡ ForwardDirection.local_to_remote) ⊎ (d ≡ ForwardDirection.unset))
direction_cases ForwardDirection.remote_to_local = inl refl
direction_cases ForwardDirection.local_to_remote = inr (inl refl)
direction_cases ForwardDirection.unset = inr (inr refl)

IsConfirmed-of_confirm :
    (target : ForwardTarget) (input : ForwardInput) (f : ControlForward)
    → control_forward_for target ≡ ok f
    → confirm_forward target input ≡ some none
    → IsConfirmed target input
unfolding confirm_forward control_forward_for
IsConfirmed-of_confirm target input f built h = elim (direction_cases target.direction) [
  | inl import' ↦
      inl
        (import', await_ready-IsReached (bytes "forward_start_timeout") input.waits (ground arith))
  | inr other ↦ elim other [
    | inl publishes ↦ inr (publishes, (verified_iff input.probe).0 (ground arith))
    | inr neither ↦ absurd (ground arith)
  ]
]

confirm-of_IsConfirmed :
    (target : ForwardTarget) (input : ForwardInput)
    → IsConfirmed target input
    → confirm_forward target input ≡ some none
unfolding confirm_forward
confirm-of_IsConfirmed target input (inl (import', reached)) =
    let (before, after, e, idle) = reached in
    rw (import', e) (await_ready-of_idle (bytes "forward_start_timeout") before after idle)
confirm-of_IsConfirmed target input (inr (publishes, bound)) =
    rw (publishes, (verified_iff input.probe).1 bound) refl

-- Forward calls ready exactly when it has installed the forward (ensureMaster has returned a master, the
-- target has a direction, the local port of an import is free, and the installation finds that master
-- current and running and its command is accepted) and has then confirmed it. An import is confirmed by
-- a connection to its local port before the deadline and before the end of the context or of the master;
-- a publication by a probe that succeeds and whose output is one or more lines, each an address on the
-- loopback.
pub adapter_forward-reports :
    (target : ForwardTarget) (input : ForwardInput)
    → (reports ready_calls (adapter_forward target input).actions ≡ true)
      ↔ (master : ℕ) × (f : ControlForward) × IsInstalled target input master f
        × IsConfirmed target input
adapter_forward-reports target input =
    let watched = reports-adapter_forward ready_calls target input in
    (
      λ h.
          let (master, f, e, held) = watched.0 h in
          let confirmed = (reports-hold_forward target master f input).0 held in
          (master, f, e, IsConfirmed-of_confirm target input f e.built confirmed),
      λ (master, f, e, confirmed). watched.1 (
        master,
        f,
        e,
        (reports-hold_forward target master f input).1
            (confirm-of_IsConfirmed target input confirmed),
      ),
    )
