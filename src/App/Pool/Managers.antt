-- ===== src/App/Pool/Managers.antt =====
-- The pool over the managers of the core.
use mathlib.Core.Path.{subst}
-- The result of `newManager` as one of a call of the pool.
use ssh_forward.App.Pool.{ManagerOps}
use ssh_forward.App.Pool.Stuck.{IsFinal}
use ssh_forward.App.Pool.Total.{Answers}
use ssh_forward.App.Targets.{HostTarget}
use ssh_forward.Core.Desired.{Doublestar, reserved_local_ports}
use ssh_forward.Core.Intent.{normalize_intent}
use ssh_forward.Core.Manager.{Manager, initial_manager, new_manager, reconcile_forwards, wanted}
use ssh_forward.Core.Manager.Frame.{reconcile_with-SameFrame}
use ssh_forward.Core.Manager.Invariant.{Inv}
use ssh_forward.Core.Manager.Operations.{
  ManagerError, adopt_intent, close, context_done, invalid_intent, manager_closed, status,
  update_intent,
}
use ssh_forward.Core.Manager.Preserved.{new_manager-Inv, update_intent-Inv}
use ssh_forward.Core.Normalize.{IntentError}
use ssh_forward.Core.Types.{ForwardingIntent, direction_eq, key_eq, state_eq, target_eq}
use ssh_forward.Prelude.{
  Bool, Result, Result-cases, Str, ap, bool_eq, err, false, if◌then◌else◌, inl, inr, nat_eq, none,
  ok, refl, some, str_eq, true, ◌∙◌, ◌≡◌,
}

unfoldable pub started : Result IntentError Manager → Result ManagerError Manager
started (err e) = err (invalid_intent e)
started (ok m) = ok m

-- `late` says that the contexts of the calls of `Close` end before the tasks of the manager.

module _ (glob : Doublestar) (late : Bool) where
  abbrev pub manager_ops : ManagerOps Manager
  manager_ops = record {
    create = λ name t intent. started (new_manager glob name intent);
    update = λ name intent m. update_intent glob false false intent m;
    close = λ name m. (close m, if late then some context_done else none);
    status = λ m. status false m;
  }

  abbrev pub HasClosed : Manager → Type 0
  HasClosed m = m.closed ≡ true

  pub manager_ops-IsFinal : IsFinal manager_ops HasClosed
  unfolding close update_intent adopt_intent
  manager_ops-IsFinal = record {
    dies = λ name m e h. refl;
    refuses = λ name i m dead. elim (Result-cases (normalize_intent glob i)) [
      | inl (e, h) ↦ (invalid_intent e, rw h refl)
      | inr (intent, h) ↦ (manager_closed, rw (h, dead) refl)
    ];
  }

-- A manager that is open, with its invariant.
abbrev pub IsOpen : Doublestar → Manager → Type 0
IsOpen glob m = (m.closed ≡ false) × Inv glob m

module _ (glob : Doublestar) (intent : Str → ForwardingIntent)
    (normal : (name : Str)
      → (n : ForwardingIntent) × (normalize_intent glob (intent name) ≡ ok n)) where
  reconciled_stays_open : (m : Manager) → (reconcile_forwards glob m).closed ≡ m.closed
  unfolding reconcile_forwards
  reconciled_stays_open m = (reconcile_with-SameFrame (wanted glob m) m).closed

  creates_open :
      (name : Str) (t : HostTarget)
      → (m : Manager) × ((manager_ops glob false).create name t (intent name) ≡ ok m)
        × IsOpen glob m
  unfolding new_manager initial_manager started
  creates_open name t =
      let (n, e) = normal name in
      let m = reconcile_forwards glob (initial_manager name n) in
      let made : new_manager glob name (intent name) ≡ ok m = rw e refl in
      (
        m,
        ap started made,
        (
          reconciled_stays_open (initial_manager name n),
          new_manager-Inv glob name (intent name) m made,
        ),
      )

  updates_open :
      (name : Str) (m : Manager)
      → IsOpen glob m
      → (m' : Manager) × ((manager_ops glob false).update name (intent name) m ≡ (m', none))
        × IsOpen glob m'
  unfolding update_intent adopt_intent
  updates_open name m (o, v) =
      let (n, e) = normal name in
      let adopted = record m {
        intent = n;
        reserved_local_ports = reserved_local_ports n.published_forwards n.reserved_local_ports;
      } in
      let updated : update_intent glob false false (intent name) m
          ≡ (reconcile_forwards glob adopted, none) =
        simp (update_intent, adopt_intent, e, o) in
      (
        reconcile_forwards glob adopted,
        updated,
        (
          reconciled_stays_open adopted ∙ o,
          subst (λ r. Inv glob r.0) updated (update_intent-Inv glob false false (intent name) m v),
        ),
      )

  pub manager_ops-Answers : Answers (manager_ops glob false) (IsOpen glob) intent
  manager_ops-Answers = record {
    creates = creates_open;
    updates = updates_open;
    closes = λ name m a. refl;
  }
