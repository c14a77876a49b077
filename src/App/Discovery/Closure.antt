-- ===== src/App/Discovery/Closure.antt =====
-- The loop ends, with the smallest set that holds the program's processes and all their descendants.
use mathlib.Core.Path.{subst}
use ssh_forward.App.Discovery.{
  HostProcess, exclude_children, exclude_named, excluded_processes, own_name, sweep,
}
use ssh_forward.App.Discovery.Sweep.{
  HoldsChildren, Within, missing, missing-le-length, missing_strict, sweep_adds, sweep_grows,
  sweep_least, sweep_stable,
}
use ssh_forward.Core.Types.{direction_eq, key_eq, state_eq, target_eq}
use ssh_forward.Prelude.{
  All, Bool, Bool-cases, List, Option, [], arith, bool_eq, contains, if◌then◌else◌, inl, inr,
  length, nat_eq, some, str_eq, suc, true, zero, ℕ, ◌<◌, ◌==◌, ◌∷◌, ◌≡◌,
}

-- The set holds the own process, every process of the program's name, and the children of its
-- members.
pub record IsClosed (processes : List HostProcess) (own_pid : ℕ) (s : ℕ → Bool) : Type 0 where
  pub own : s own_pid ≡ true
  pub named : All (λ (p : HostProcess). p.name ≡ own_name → s p.pid ≡ true) processes
  pub children : HoldsChildren s processes

exclude_named_grows : (ps : List HostProcess) (ex : List ℕ) → Within ex (exclude_named ps ex)
unfolding exclude_named contains
exclude_named_grows [] ex j h = h
exclude_named_grows (p ∷ ps) ex j h =
    exclude_named_grows ps (if p.name == own_name then p.pid ∷ ex else ex) j (ground arith)

exclude_named-named :
    (ps : List HostProcess) (ex : List ℕ)
    → All (λ (p : HostProcess). p.name ≡ own_name → contains (exclude_named ps ex) p.pid ≡ true) ps
unfolding exclude_named contains
exclude_named-named [] ex = tt
exclude_named-named (p ∷ ps) ex =
    let next = if p.name == own_name then p.pid ∷ ex else ex in
    (λ e. exclude_named_grows ps next p.pid (ground arith), exclude_named-named ps next)

exclude_named_least :
    (s : ℕ → Bool) (ps : List HostProcess) (ex : List ℕ)
    → All (λ (p : HostProcess). p.name ≡ own_name → s p.pid ≡ true) ps
    → ((j : ℕ) → contains ex j ≡ true → s j ≡ true)
    → (j : ℕ) → contains (exclude_named ps ex) j ≡ true
    → s j ≡ true
unfolding exclude_named contains
exclude_named_least s [] ex c f j h = f j h
exclude_named_least s (p ∷ ps) ex c f j h =
    exclude_named_least s ps (if p.name == own_name then p.pid ∷ ex else ex) c.1
      (λ i k. ground (arith, f i, c.0)) j h

-- A weaker test keeps what a stronger one has.
named_mono :
    (s t : ℕ → Bool) (ps : List HostProcess)
    → ((j : ℕ) → s j ≡ true → t j ≡ true)
    → All (λ (p : HostProcess). p.name ≡ own_name → s p.pid ≡ true) ps
    → All (λ (p : HostProcess). p.name ≡ own_name → t p.pid ≡ true) ps
named_mono s t [] f a = tt
named_mono s t (p ∷ ps) f a = (λ e. f p.pid (a.0 e), named_mono s t ps f a.1)

contains_self : (j : ℕ) → contains (j ∷ []) j ≡ true
unfolding contains
contains_self j = ground arith

only_self : (i j : ℕ) → contains (i ∷ []) j ≡ true → i ≡ j
unfolding contains
only_self i j h = ground arith

module _ (processes : List HostProcess) where
  -- What a run of the loop from this set returns.
  abbrev Finishes : List ℕ → Option (List ℕ) → Type 0
  Finishes ex r =
      (out : List ℕ) × (r ≡ some out)
      × Within ex out
      × HoldsChildren (contains out) processes
      × ((s : ℕ → Bool)
          → HoldsChildren s processes
          → ((j : ℕ) → contains ex j ≡ true → s j ≡ true)
          → (j : ℕ) → contains out j ≡ true
          → s j ≡ true)

  exclude_children-Finishes :
      (passes : ℕ) (ex : List ℕ)
      → missing ex processes < passes
      → Finishes ex (exclude_children processes passes ex)
  unfolding exclude_children
  exclude_children-Finishes zero ex h = absurd (omega arith)
  exclude_children-Finishes (suc passes) ex h = elim (Bool-cases (sweep processes ex).1) [
    | inr f ↦
        let (same, children) = sweep_stable processes ex f in
        (ex, ground (arith, same), λ j k. k, children, λ s c g. g)
    | inl t ↦
        let (j, here, out, into) = sweep_adds processes ex t in
        let grows = sweep_grows processes ex in
        let fewer = missing_strict ex (sweep processes ex).0 grows processes j here out into in
        let (o, e, w, c, least) =
          exclude_children-Finishes passes (sweep processes ex).0 (omega arith) in
        (
          o,
          ground (arith, e),
          λ i k. w i (grows i k),
          c,
          λ s cs g. least s cs (sweep_least s processes ex cs g),
        )
  ]

  -- The passes that the model allows are enough, and the result is the smallest set that holds the
  -- own process, every process of the program's name, and all children of its members.
  pub excluded_processes_lem :
      (own_pid : ℕ)
      → (out : List ℕ) × (excluded_processes processes own_pid ≡ some out)
        × IsClosed processes own_pid (contains out)
        × ((s : ℕ → Bool)
            → IsClosed processes own_pid s
            → (j : ℕ) → contains out j ≡ true
            → s j ≡ true)
  unfolding excluded_processes
  excluded_processes_lem own_pid =
      let start = exclude_named processes (own_pid ∷ []) in
      let (out, e, w, c, least) =
        exclude_children-Finishes (suc (length processes)) start
          (omega (arith, missing-le-length start processes)) in
      (
        out,
        e,
        record {
          own =
              w own_pid
                (exclude_named_grows processes (own_pid ∷ []) own_pid (contains_self own_pid));
          named =
              named_mono (contains start) (contains out) processes w
                (exclude_named-named processes (own_pid ∷ []));
          children = c;
        },
        λ s closed. least s closed.children (
            exclude_named_least s processes (own_pid ∷ []) closed.named
              (λ j h. subst (λ i. s i ≡ true) (only_self own_pid j h) closed.own)),
      )
