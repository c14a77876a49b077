-- ===== src/Core/Manager/Workers.antt =====
-- The operations that a worker's goroutine calls keep the invariant.
use ssh_forward.Core.Desired.{Doublestar, forward_status}
use ssh_forward.Core.Manager.{Manager, Worker, wanted}
use ssh_forward.Core.Manager.Frame.{IsFresh}
use ssh_forward.Core.Manager.Invariant.{
  Inv, IsSound, reconcile_forwards-Inv, status_key-automatic, status_key-forward_status,
}
use ssh_forward.Core.Manager.Operations.{
  forward_stopped, record_state, set_forward_state, status_key, worker_gone,
}
use ssh_forward.Core.Types.{
  ForwardKey, ForwardState, ForwardStatus, ForwardTarget, direction_eq, key_eq, state_eq, target_eq,
}
use ssh_forward.Prelude.{
  Map, Option, Str, ap, arith, bool_eq, delete, has, if_intro, insert, is_some, lookup,
  lookup-delete, lookup-insert, nat_eq, none, not, refl, some, str_eq, true, ℕ, ◌==◌, ◌||◌, ◌∙◌,
  ◌≡◌,
}

delete-IsFresh :
    (k : ForwardKey) (n : ℕ) (workers : Map ForwardKey Worker)
    → IsFresh n workers
    → IsFresh n (delete k workers)
delete-IsFresh k n workers f = record {
  below = λ j w e. ground (arith, lookup-delete k j workers, f.below j w);
  apart = λ i j v w ev ew same.
      ground (arith, lookup-delete k i workers, lookup-delete k j workers, f.apart i j v w);
}

removed-IsSound :
    (k : ForwardKey) (m : Manager)
    → IsSound m
    → IsSound
        (record m { forward_workers = delete k m.forward_workers; states = delete k m.states })
removed-IsSound k m s = record {
  unique = s.unique;
  ports = s.ports;
  worker_keys = λ j w e. ground (arith, lookup-delete k j m.forward_workers, s.worker_keys j w);
  covered = λ j h.
      ground (arith, lookup-delete k j m.forward_workers, lookup-delete k j m.states, s.covered j);
  status_keys = λ j x e. ground (arith, lookup-delete k j m.states, s.status_keys j x);
  fresh = delete-IsFresh k m.next_worker m.forward_workers s.fresh;
}

worker_gone-Inv :
    (glob : Doublestar) (o : Option Worker) (k : ForwardKey) (worker : ℕ) (m : Manager)
    → Inv glob m
    → Inv glob (worker_gone glob o k worker m)
unfolding worker_gone
worker_gone-Inv glob none k worker m v = v
worker_gone-Inv glob (some w) k worker m v =
    if_intro (Inv glob) (not (w.id == worker)) _ _ (λ _. v)
      (λ _.
        if_intro (Inv glob) m.closed _ _
          (λ e. record { sound = removed-IsSound k m v.sound; settled = λ open'. cc })
          (λ _. reconcile_forwards-Inv glob _ (removed-IsSound k m v.sound)))

pub forward_stopped-Inv :
    (glob : Doublestar) (k : ForwardKey) (worker : ℕ) (m : Manager)
    → Inv glob m
    → Inv glob (forward_stopped glob k worker m)
unfolding forward_stopped
forward_stopped-Inv glob k worker m v =
    worker_gone-Inv glob (lookup k m.forward_workers) k worker m v

recorded-Inv :
    (glob : Doublestar) (k : ForwardKey) (s : ForwardStatus) (m : Manager)
    → status_key s ≡ k
    → has k m.forward_workers ≡ true
    → Inv glob m
    → Inv glob (record m { states = insert k s m.states })
unfolding wanted
recorded-Inv glob k s m e running v = record {
  sound = record {
    unique = v.sound.unique;
    ports = v.sound.ports;
    worker_keys = v.sound.worker_keys;
    covered = λ j h. ground (arith, lookup-insert k j s m.states, v.sound.covered j);
    status_keys = λ j x h. ground (arith, lookup-insert k j s m.states, v.sound.status_keys j x);
    fresh = v.sound.fresh;
  };
  settled = λ open'.
      let old = v.settled open' in
      record {
        tracked = λ j h. ground (arith, lookup-insert k j s m.states, old.tracked j);
        justified = λ j h. ground (arith, lookup-insert k j s m.states, old.justified j);
        current = old.current;
      };
}

record_state-Inv :
    (glob : Doublestar) (o : Option Worker) (k : ForwardKey) (worker : ℕ) (state : ForwardState)
    (diagnostic : Str) (target : ForwardTarget) (m : Manager)
    → lookup k m.forward_workers ≡ o
    → Inv glob m
    → Inv glob (record_state o k worker state diagnostic target m)
unfolding record_state
record_state-Inv glob none k worker state diagnostic target m e v = v
record_state-Inv glob (some w) k worker state diagnostic target m e v =
    if_intro (Inv glob) (m.closed || w.cancelled || not (w.id == worker)) _ _ (λ _. v)
      (λ _.
        recorded-Inv glob k _ m
          (status_key-automatic (forward_status w.desired state diagnostic target) _
            ∙ status_key-forward_status w.desired state diagnostic target
            ∙ v.sound.worker_keys k w e)
          (ap is_some e) v)

pub set_forward_state-Inv :
    (glob : Doublestar) (k : ForwardKey) (worker : ℕ) (state : ForwardState) (diagnostic : Str)
    (target : ForwardTarget) (m : Manager)
    → Inv glob m
    → Inv glob (set_forward_state k worker state diagnostic target m)
unfolding set_forward_state
set_forward_state-Inv glob k worker state diagnostic target m v =
    record_state-Inv glob (lookup k m.forward_workers) k worker state diagnostic target m refl v
