-- ===== src/Core/Manager/Invariant.antt =====
-- The invariant of the manager, and that a reconciliation establishes it.
use mathlib.Core.Path.{subst}
use ssh_forward.Core.Desired.{DesiredMap, Doublestar, forward_status}
use ssh_forward.Core.Desired.Keyed.{IsWellKeyed, build_desired_forwards-IsWellKeyed}
use ssh_forward.Core.Manager.{
  Manager, Worker, reconcile_forwards, reconcile_with, starting_status, wanted,
}
use ssh_forward.Core.Manager.Frame.{
  IsFresh, reconcile_with-IsFresh, reconcile_with-SameFrame, wanted-SameFrame,
}
use ssh_forward.Core.Manager.Operations.{status_key}
use ssh_forward.Core.Manager.Reconciled.{reconcile_with_lem}
use ssh_forward.Core.Reconcile.{same_forward_behavior}
use ssh_forward.Core.Types.{
  DesiredForward, ForwardKey, ForwardState, ForwardStatus, ForwardTarget, Listener, direction_eq,
  key, key_eq, state_eq, target_eq,
}
use ssh_forward.Prelude.{
  Bool, Option, Option-cases, Str, Unique, [], ap, arith, bool_eq, false, has, inl, inr, lookup,
  nat_eq, none, refl, some, str_eq, sym, true, ℕ, ◌||◌, ◌∙◌, ◌≡◌,
}

-- Whether a worker runs the forward that is wanted.
abbrev pub runs_wanted : Option DesiredForward → Worker → Bool
runs_wanted none w = false
runs_wanted (some d) w = same_forward_behavior w.desired d

-- What holds of the maps, whatever is wanted.
pub record IsSound (m : Manager) : Type 0 where
  pub unique : Unique m.listeners
  pub ports : (p : ℕ) (l : Listener) → lookup p m.listeners ≡ some l → l.port ≡ p
  pub worker_keys :
      (k : ForwardKey) (w : Worker) → lookup k m.forward_workers ≡ some w → key w.desired ≡ k
  pub covered : (k : ForwardKey) → has k m.forward_workers ≡ true → has k m.states ≡ true
  pub status_keys :
      (k : ForwardKey) (s : ForwardStatus) → lookup k m.states ≡ some s → status_key s ≡ k
  pub fresh : IsFresh m.next_worker m.forward_workers

-- What holds besides while the manager is open.
pub record IsSettled (desired : DesiredMap) (m : Manager) : Type 0 where
  pub tracked : (k : ForwardKey) → has k desired ≡ true → has k m.states ≡ true
  pub justified :
      (k : ForwardKey) → has k m.states ≡ true → (has k desired || has k m.forward_workers) ≡ true
  pub current :
      (k : ForwardKey) (w : Worker)
      → lookup k m.forward_workers ≡ some w
      → w.cancelled ≡ false
      → runs_wanted (lookup k desired) w ≡ true

pub record Inv (glob : Doublestar) (m : Manager) : Type 0 where
  pub sound : IsSound m
  pub settled : m.closed ≡ false → IsSettled (wanted glob m) m

pub status_key-forward_status :
    (d : DesiredForward) (state : ForwardState) (diagnostic : Str) (target : ForwardTarget)
    → status_key (forward_status d state diagnostic target) ≡ key d
unfolding status_key forward_status key
status_key-forward_status d state diagnostic target = ground arith

pub status_key-automatic :
    (s : ForwardStatus) (b : Bool) → status_key (record s { automatic = b }) ≡ status_key s
unfolding status_key
status_key-automatic s b = refl

status_key-starting_status : (d : DesiredForward) → status_key (starting_status d) ≡ key d
status_key-starting_status d = status_key-forward_status d ForwardState.starting [] d.preferred

same_forward_behavior_refl : (d : DesiredForward) → same_forward_behavior d d ≡ true
unfolding same_forward_behavior
same_forward_behavior_refl d = ground arith

pub wanted-IsWellKeyed : (glob : Doublestar) (m : Manager) → IsWellKeyed (wanted glob m)
unfolding wanted
wanted-IsWellKeyed glob m = build_desired_forwards-IsWellKeyed glob _ _ _ _ _ _

module _ (desired : DesiredMap) (m : Manager) (keyed : IsWellKeyed desired)
    (sound : IsSound m) where
  abbrev reconciled : Manager
  reconciled = reconcile_with desired m

  worker_keys_after :
      (k : ForwardKey) (w : Worker)
      → lookup k reconciled.forward_workers ≡ some w
      → key w.desired ≡ k
  worker_keys_after k w e =
      let (s, b) = reconcile_with_lem desired m keyed k in
      elim (Option-cases (lookup k m.forward_workers)) [
        | inr (w0, q) ↦ ground (arith, b, sound.worker_keys k w0 q)
        | inl q ↦ elim (Option-cases (lookup k desired)) [
          | inl r ↦ ground (arith, b)
          | inr (d, r) ↦ ground (arith, b, keyed k d r)
        ]
      ]

  covered_after :
      (k : ForwardKey) → has k reconciled.forward_workers ≡ true → has k reconciled.states ≡ true
  covered_after k h = ground (arith, reconcile_with_lem desired m keyed k, sound.covered k)

  status_keys_after :
      (k : ForwardKey) (s : ForwardStatus) → lookup k reconciled.states ≡ some s → status_key s ≡ k
  status_keys_after k s e =
      let (after, _) = reconcile_with_lem desired m keyed k in
      elim (Option-cases (lookup k desired)) [
        | inl r ↦ elim (Option-cases (lookup k m.forward_workers)) [
          | inl q ↦ ground (arith, after)
          | inr (w, q) ↦ ground (arith, after, sound.status_keys k s)
        ]
        | inr (d, r) ↦ elim (Option-cases (lookup k m.forward_workers)) [
          | inl q ↦ ground (arith, after, keyed k d r, status_key-starting_status d)
          | inr (w, q) ↦ elim (Option-cases (lookup k m.states)) [
            | inl p ↦ ground (arith, sound.covered k)
            | inr (s0, p) ↦
                ground (arith, after, sound.status_keys k s0 p, status_key-automatic s0 d.automatic)
          ]
        ]
      ]

  current_after :
      (k : ForwardKey) (w : Worker)
      → lookup k reconciled.forward_workers ≡ some w
      → w.cancelled ≡ false
      → runs_wanted (lookup k desired) w ≡ true
  current_after k w e c =
      let (_, b) = reconcile_with_lem desired m keyed k in
      elim (Option-cases (lookup k m.forward_workers)) [
        | inr (w0, q) ↦ elim (Option-cases (lookup k desired)) [
          | inl r ↦ ground (arith, b)
          | inr (d, r) ↦ ground (arith, b)
        ]
        | inl q ↦ elim (Option-cases (lookup k desired)) [
          | inl r ↦ ground (arith, b)
          | inr (d, r) ↦ ground (arith, b, same_forward_behavior_refl d)
        ]
      ]

  reconcile_with-IsSound : IsSound reconciled
  reconcile_with-IsSound = record {
    unique = subst Unique (sym (reconcile_with-SameFrame desired m).listeners) sound.unique;
    ports = λ p l e.
        sound.ports p l (ap (lookup p) (sym (reconcile_with-SameFrame desired m).listeners) ∙ e);
    worker_keys = worker_keys_after;
    covered = covered_after;
    status_keys = status_keys_after;
    fresh = reconcile_with-IsFresh desired m sound.fresh;
  }

  reconcile_with-IsSettled : IsSettled desired reconciled
  reconcile_with-IsSettled = record {
    tracked = λ k h. ground (arith, reconcile_with_lem desired m keyed k, sound.covered k);
    justified = λ k h. ground (arith, reconcile_with_lem desired m keyed k);
    current = current_after;
  }

-- A reconciliation of a sound state establishes the invariant.
pub reconcile_forwards-Inv :
    (glob : Doublestar) (m : Manager) → IsSound m → Inv glob (reconcile_forwards glob m)
unfolding reconcile_forwards
reconcile_forwards-Inv glob m sound =
    let keyed = wanted-IsWellKeyed glob m in
    record {
      sound = reconcile_with-IsSound (wanted glob m) m keyed sound;
      settled = λ _.
          rw (wanted-SameFrame glob _ m (reconcile_with-SameFrame (wanted glob m) m))
            (reconcile_with-IsSettled (wanted glob m) m keyed sound);
    }
