-- ===== src/Core/Manager/Frame.antt =====
-- What a reconciliation leaves alone, and the identities of workers.
use ssh_forward.Core.Desired.{DesiredMap, Doublestar}
use ssh_forward.Core.Manager.{
  Manager, Worker, reconcile_with, start_forward, start_forwards, stop_workers, wanted,
}
use ssh_forward.Core.Manager.Effects.{lookup-stop_workers}
use ssh_forward.Core.Types.{
  DesiredForward, ForwardKey, direction_eq, key, key_eq, state_eq, target_eq,
}
use ssh_forward.Prelude.{
  List, Map, Option-cases, [], arith, bool_eq, false, inl, inr, lookup, lookup-insert, nat_eq, refl,
  some, str_eq, ℕ, ◌<◌, ◌∷◌, ◌≡◌,
}

-- The fields that a reconciliation does not touch.
pub record SameFrame (m n : Manager) : Type 0 where
  pub closed : m.closed ≡ n.closed
  pub host : m.host ≡ n.host
  pub intent : m.intent ≡ n.intent
  pub discovery : m.discovery ≡ n.discovery
  pub listeners : m.listeners ≡ n.listeners
  pub reserved : m.reserved_local_ports ≡ n.reserved_local_ports

start_forwards-SameFrame :
    (ds : List DesiredForward) (m : Manager) → SameFrame (start_forwards ds m) m
unfolding start_forwards
start_forwards-SameFrame [] m = record {
  closed = refl;
  host = refl;
  intent = refl;
  discovery = refl;
  listeners = refl;
  reserved = refl;
}
start_forwards-SameFrame (d ∷ ds) m =
    let ih = start_forwards-SameFrame ds (start_forward d m) in
    record {
      closed = ih.closed;
      host = ih.host;
      intent = ih.intent;
      discovery = ih.discovery;
      listeners = ih.listeners;
      reserved = ih.reserved;
    }

pub reconcile_with-SameFrame :
    (desired : DesiredMap) (m : Manager) → SameFrame (reconcile_with desired m) m
unfolding reconcile_with
reconcile_with-SameFrame desired m =
    let same = start_forwards-SameFrame _ _ in
    record {
      closed = same.closed;
      host = same.host;
      intent = same.intent;
      discovery = same.discovery;
      listeners = same.listeners;
      reserved = same.reserved;
    }

-- The forwards that are wanted depend on the intent and the listeners alone.
pub wanted-SameFrame :
    (glob : Doublestar) (m n : Manager) → SameFrame m n → wanted glob m ≡ wanted glob n
unfolding wanted
wanted-SameFrame glob m n same = cc (same.intent, same.listeners)

-- Every worker was allocated before the counter's present value, and no two keys share a worker.
pub record IsFresh (n : ℕ) (workers : Map ForwardKey Worker) : Type 0 where
  pub below : (k : ForwardKey) (w : Worker) → lookup k workers ≡ some w → w.id < n
  pub apart :
      (j k : ForwardKey) (v w : Worker)
      → lookup j workers ≡ some v
      → lookup k workers ≡ some w
      → v.id ≡ w.id
      → j ≡ k

stop_workers-IsFresh :
    (ks : List ForwardKey) (n : ℕ) (workers : Map ForwardKey Worker)
    → IsFresh n workers
    → IsFresh n (stop_workers ks workers)
stop_workers-IsFresh ks n workers f = record {
  below = λ k w e. elim (Option-cases (lookup k workers)) [
    | inl q ↦ ground (arith, lookup-stop_workers ks workers k)
    | inr (w0, q) ↦ ground (arith, lookup-stop_workers ks workers k, f.below k w0 q)
  ];
  apart = λ j k v w ev ew same. elim (Option-cases (lookup j workers)) [
    | inl q ↦ ground (arith, lookup-stop_workers ks workers j)
    | inr (v0, q) ↦ elim (Option-cases (lookup k workers)) [
      | inl q' ↦ ground (arith, lookup-stop_workers ks workers k)
      | inr (w0, q') ↦
          f.apart j k v0 w0 q q'
            (ground (arith, lookup-stop_workers ks workers j, lookup-stop_workers ks workers k))
    ]
  ];
}

start_forward-IsFresh :
    (d : DesiredForward) (m : Manager)
    → IsFresh m.next_worker m.forward_workers
    → IsFresh (start_forward d m).next_worker (start_forward d m).forward_workers
unfolding start_forward
start_forward-IsFresh d m f =
    let w' : Worker = record { id = m.next_worker; desired = d; cancelled = false } in
    record {
      below = λ k w e. ground (arith, lookup-insert (key d) k w' m.forward_workers, f.below k w);
      apart = λ j k v w ev ew same. ground (
        arith,
        lookup-insert (key d) j w' m.forward_workers,
        lookup-insert (key d) k w' m.forward_workers,
        f.below j v,
        f.below k w,
        f.apart j k v w,
      );
    }

start_forwards-IsFresh :
    (ds : List DesiredForward) (m : Manager)
    → IsFresh m.next_worker m.forward_workers
    → IsFresh (start_forwards ds m).next_worker (start_forwards ds m).forward_workers
unfolding start_forwards
start_forwards-IsFresh [] m f = f
start_forwards-IsFresh (d ∷ ds) m f =
    start_forwards-IsFresh ds (start_forward d m) (start_forward-IsFresh d m f)

pub reconcile_with-IsFresh :
    (desired : DesiredMap) (m : Manager)
    → IsFresh m.next_worker m.forward_workers
    → IsFresh (reconcile_with desired m).next_worker (reconcile_with desired m).forward_workers
unfolding reconcile_with
reconcile_with-IsFresh desired m f =
    start_forwards-IsFresh _ _ (stop_workers-IsFresh _ m.next_worker m.forward_workers f)
