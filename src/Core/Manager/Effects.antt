-- ===== src/Core/Manager/Effects.antt =====
-- What a reconciliation does to the entry of each key.
use mathlib.Core.Option
use ssh_forward.Core.Desired.{DesiredMap}
use ssh_forward.Core.Manager.{
  Manager, Worker, keep_forwards, snapshots, start_forward, start_forwards, starting_status,
  stop_workers, wait_forwards,
}
use ssh_forward.Core.Reconcile.{WorkerSnapshot, zero_desired}
use ssh_forward.Core.Types.{
  DesiredForward, ForwardKey, ForwardStatus, direction_eq, key, key_eq, state_eq, target_eq,
  zero_status,
}
use ssh_forward.Prelude.{
  All, Bool, List, Map, Option-cases, [], arith, bool_eq, contains, false, if◌then◌else◌, inl, inr,
  insert, lookup, lookup-insert, map, nat_eq, refl, some, str_eq, true, value_or, ◌∷◌, ◌≡◌,
}

pub lookup-snapshots :
    (states : Map ForwardKey ForwardStatus) (workers : Map ForwardKey Worker) (k : ForwardKey)
    → lookup k (snapshots states workers)
      ≡ Option.map
          (λ (w : Worker).
            let s : WorkerSnapshot = record {
              desired = w.desired;
              status = value_or (lookup k states) zero_status;
            } in
            s)
          (lookup k workers)
unfolding snapshots lookup
lookup-snapshots states [] k = refl
lookup-snapshots states ((j, w) ∷ rest) k = ground (arith, lookup-snapshots states rest k)

-- A worker without its identity.
abbrev pub body : Worker → DesiredForward × Bool
body w = (w.desired, w.cancelled)

module _ (desired : DesiredMap) where
  abbrev pub AreWanted : List DesiredForward → Type 0
  AreWanted = All (λ d. lookup (key d) desired ≡ some d)

  abbrev pub wanted_at : ForwardKey → DesiredForward
  wanted_at k = value_or (lookup k desired) zero_desired

  pub lookup-keep_forwards :
      (ds : List DesiredForward) (states : Map ForwardKey ForwardStatus) (k : ForwardKey)
      → AreWanted ds
      → lookup k (keep_forwards ds states) ≡ (
          if contains (map key ds) k
          then some (record (value_or (lookup k states) zero_status) {
            automatic = (wanted_at k).automatic;
          })
          else lookup k states)
  unfolding keep_forwards contains
  lookup-keep_forwards [] states k a = refl
  lookup-keep_forwards (d ∷ ds) states k a =
      let status' : ForwardStatus = record (value_or (lookup (key d) states) zero_status) {
        automatic = d.automatic;
      } in
      ground (
        arith,
        a.0,
        lookup-keep_forwards ds (insert (key d) status' states) k a.1,
        lookup-insert (key d) k status' states,
      )

  pub lookup-wait_forwards :
      (ds : List DesiredForward) (states : Map ForwardKey ForwardStatus) (k : ForwardKey)
      → AreWanted ds
      → lookup k (wait_forwards ds states) ≡ (
          if contains (map key ds) k then some (starting_status (wanted_at k)) else lookup k states)
  unfolding wait_forwards contains
  lookup-wait_forwards [] states k a = refl
  lookup-wait_forwards (d ∷ ds) states k a = ground (
    arith,
    a.0,
    lookup-wait_forwards ds (insert (key d) (starting_status d) states) k a.1,
    lookup-insert (key d) k (starting_status d) states,
  )

  pub lookup-start_forwards-states :
      (ds : List DesiredForward) (m : Manager) (k : ForwardKey)
      → AreWanted ds
      → lookup k (start_forwards ds m).states ≡ (
          if contains (map key ds) k
          then some (starting_status (wanted_at k))
          else lookup k m.states)
  unfolding start_forwards contains
  lookup-start_forwards-states [] m k a = refl
  lookup-start_forwards-states (d ∷ ds) m k a = ground (
    arith,
    a.0,
    lookup-start_forwards-states ds (start_forward d m) k a.1,
    lookup-insert (key d) k (starting_status d) m.states,
  )

  pub lookup-start_forwards-workers :
      (ds : List DesiredForward) (m : Manager) (k : ForwardKey)
      → AreWanted ds
      → Option.map body (lookup k (start_forwards ds m).forward_workers) ≡ (
          if contains (map key ds) k
          then some (wanted_at k, false)
          else Option.map body (lookup k m.forward_workers))
  unfolding start_forwards contains
  lookup-start_forwards-workers [] m k a = refl
  lookup-start_forwards-workers (d ∷ ds) m k a = ground (
    arith,
    a.0,
    lookup-start_forwards-workers ds (start_forward d m) k a.1,
    lookup-insert (key d) k (record { id = m.next_worker; desired = d; cancelled = false })
        m.forward_workers,
  )

pub lookup-stop_workers :
    (ks : List ForwardKey) (workers : Map ForwardKey Worker) (k : ForwardKey)
    → lookup k (stop_workers ks workers)
      ≡ Option.map
          (λ (w : Worker). if contains ks k then record w { cancelled = true } else w)
          (lookup k workers)
unfolding stop_workers contains
lookup-stop_workers [] workers k = ground arith
lookup-stop_workers (j ∷ ks) workers k = elim (Option-cases (lookup j workers)) [
  | inl e ↦ ground (arith, lookup-stop_workers ks workers k)
  | inr (w, e) ↦ ground (
    arith,
    lookup-stop_workers ks (insert j (record w { cancelled = true }) workers) k,
    lookup-insert j k (record w { cancelled = true }) workers,
  )
]
