-- ===== src/Core/Reconcile/Plan.antt =====
-- The plan, key by key.
use ssh_forward.Core.Desired.{DesiredMap}
use ssh_forward.Core.Desired.Keyed.{IsWellKeyed}
use ssh_forward.Core.Reconcile.{
  WorkerSnapshot, compare_forward_keys, keeps, plan_desired, plan_workers, reserved_worker_port,
  sorted_forward_keys, waits, worker_at,
}
use ssh_forward.Core.Types.{ForwardKey, direction_eq, key, key_eq, state_eq, target_eq}
use ssh_forward.Prelude.{
  ==_refl, All, Bool, List, Map, Option-cases, [], arith, bool_eq, contains, contains-keys,
  contains-sorted, false, has, inl, inr, keys, lookup, map, nat_eq, none, not, refl, some, str_eq,
  true, ℕ, ◌&&◌, ◌∙◌, ◌∷◌, ◌≡◌, ◌⊎◌,
}

pub contains-sorted_keys :
    {T : Type 0} (m : Map ForwardKey T) (k : ForwardKey)
    → contains (sorted_forward_keys m) k ≡ has k m
unfolding sorted_forward_keys
contains-sorted_keys m k = contains-sorted compare_forward_keys (keys m) k ∙ contains-keys k m

module _ (desired : DesiredMap) (workers : Map ForwardKey WorkerSnapshot) (reserved : List ℕ) where
  pub stop-plan_workers :
      (ks : List ForwardKey) (k : ForwardKey)
      → contains (plan_workers desired workers reserved ks).stop k
        ≡ (contains ks k && not (keeps desired workers reserved k))
  unfolding plan_workers contains
  stop-plan_workers [] k = refl
  stop-plan_workers (j ∷ ks) k = ground (arith, stop-plan_workers ks k)

  pub keep-plan_workers :
      IsWellKeyed desired
      → (ks : List ForwardKey) (k : ForwardKey)
      → contains (map key (plan_workers desired workers reserved ks).keep) k
        ≡ (contains ks k && keeps desired workers reserved k)
  unfolding plan_workers contains
  keep-plan_workers keyed [] k = refl
  keep-plan_workers keyed (j ∷ ks) k = elim (Option-cases (lookup j desired)) [
    | inl e ↦ ground (arith, keep-plan_workers keyed ks k)
    | inr (d, e) ↦ ground (arith, keyed j d e, keep-plan_workers keyed ks k)
  ]

  -- What is kept is what is wanted.
  pub kept-plan_workers :
      IsWellKeyed desired
      → (ks : List ForwardKey)
      → All (λ d. lookup (key d) desired ≡ some d) (plan_workers desired workers reserved ks).keep
  unfolding plan_workers
  kept-plan_workers keyed [] = tt
  kept-plan_workers keyed (j ∷ ks) = elim (Option-cases (lookup j desired)) [
    | inl e ↦ ground (arith, kept-plan_workers keyed ks)
    | inr (d, e) ↦ ground (arith, keyed j d e, kept-plan_workers keyed ks)
  ]

  -- A reserved port that the worker of a key holds and is told to leave.
  abbrev pub Leaves : ℕ → ForwardKey → Type 0
  Leaves p k =
      (keeps desired workers reserved k ≡ false)
      × ((reserved_worker_port k (worker_at desired workers k).status reserved).1 ≡ true)
      × ((reserved_worker_port k (worker_at desired workers k).status reserved).0 ≡ p)

  pub stopping-plan_workers :
      (ks : List ForwardKey) (p : ℕ) (k : ForwardKey)
      → contains ks k ≡ true
      → Leaves p k
      → contains (plan_workers desired workers reserved ks).stopping_local_ports p ≡ true
  unfolding plan_workers contains
  stopping-plan_workers [] p k h l = ground arith
  stopping-plan_workers (j ∷ ks) p k h l = ground (arith, stopping-plan_workers ks p k)

  leaver_step :
      (j : ForwardKey) (ks : List ForwardKey) (p : ℕ)
      → contains (plan_workers desired workers reserved (j ∷ ks)).stopping_local_ports p ≡ true
      → Leaves p j
        ⊎ (contains (plan_workers desired workers reserved ks).stopping_local_ports p ≡ true)
  unfolding plan_workers contains
  leaver_step j ks p h = ground arith

  pub leaver-plan_workers :
      (ks : List ForwardKey) (p : ℕ)
      → contains (plan_workers desired workers reserved ks).stopping_local_ports p ≡ true
      → (k : ForwardKey) × (contains ks k ≡ true) × Leaves p k
  unfolding plan_workers contains
  leaver-plan_workers [] p h = ground arith
  leaver-plan_workers (j ∷ ks) p h = elim (leaver_step j ks p h) [
    | inl here ↦ (j, rw (==_refl j) refl, here)
    | inr later ↦ let (k, c, l) = leaver-plan_workers ks p later in (k, rw c (ground arith), l)
  ]

-- Whether the wanted forward of a key waits.
abbrev pub waits_at : DesiredMap → Map ForwardKey WorkerSnapshot → List ℕ → ForwardKey → Bool
waits_at desired workers stopping k = elim (lookup k desired) [
  | none ↦ false
  | some d ↦ waits desired workers stopping d
]

module _ (desired : DesiredMap) (workers : Map ForwardKey WorkerSnapshot) (stopping : List ℕ)
    (keyed : IsWellKeyed desired) where
  pub start-plan_desired :
      (ks : List ForwardKey) (k : ForwardKey)
      → ((j : ForwardKey) → contains ks j ≡ true → has j desired ≡ true)
      → contains (map key (plan_desired desired workers stopping ks).start) k
        ≡ (contains ks k && not (has k workers) && not (waits_at desired workers stopping k))
  unfolding plan_desired contains
  start-plan_desired [] k known = refl
  start-plan_desired (j ∷ ks) k known = elim (Option-cases (lookup j desired)) [
    | inl e ↦ ground (arith, known j)
    | inr (d, e) ↦
        ground (arith, keyed j d e, start-plan_desired ks k (λ i h. known i (ground arith)))
  ]

  pub wait-plan_desired :
      (ks : List ForwardKey) (k : ForwardKey)
      → ((j : ForwardKey) → contains ks j ≡ true → has j desired ≡ true)
      → contains (map key (plan_desired desired workers stopping ks).wait) k
        ≡ (contains ks k && not (has k workers) && waits_at desired workers stopping k)
  unfolding plan_desired contains
  wait-plan_desired [] k known = refl
  wait-plan_desired (j ∷ ks) k known = elim (Option-cases (lookup j desired)) [
    | inl e ↦ ground (arith, known j)
    | inr (d, e) ↦
        ground (arith, keyed j d e, wait-plan_desired ks k (λ i h. known i (ground arith)))
  ]

  pub wanted-plan_desired :
      (ks : List ForwardKey)
      → ((j : ForwardKey) → contains ks j ≡ true → has j desired ≡ true)
      → All (λ d. lookup (key d) desired ≡ some d) (plan_desired desired workers stopping ks).start
        × All (λ d. lookup (key d) desired ≡ some d) (plan_desired desired workers stopping ks).wait
  unfolding plan_desired contains
  wanted-plan_desired [] known = (tt, tt)
  wanted-plan_desired (j ∷ ks) known = elim (Option-cases (lookup j desired)) [
    | inl e ↦ ground (arith, known j)
    | inr (d, e) ↦
        ground (arith, keyed j d e, wanted-plan_desired ks (λ i h. known i (ground arith)))
  ]
