-- ===== src/App/Discovery/Sweep.antt =====
-- What one pass adds to the set, and how many processes are left out of it.
use ssh_forward.App.Discovery.{HostProcess, sweep}
use ssh_forward.Core.Types.{direction_eq, key_eq, state_eq, target_eq}
use ssh_forward.Prelude.{
  All, Bool, Bool-cases, List, [], arith, bool_eq, contains, false, if◌then◌else◌, inl, inr, length,
  map, nat_eq, not, refl, str_eq, true, ℕ, ℕ_discrete, ◌&&◌, ◌+◌, ◌<◌, ◌∷◌, ◌≡◌, ◌≤◌,
}

abbrev pub Within : List ℕ → List ℕ → Type 0
Within few many = (j : ℕ) → contains few j ≡ true → contains many j ≡ true

-- The set holds the children of its members.
abbrev pub HoldsChildren : (ℕ → Bool) → List HostProcess → Type 0
HoldsChildren s = All (λ (p : HostProcess). s p.ppid ≡ true → s p.pid ≡ true)

pub sweep_grows : (ps : List HostProcess) (ex : List ℕ) → Within ex (sweep ps ex).0
unfolding sweep contains
sweep_grows [] ex j h = h
sweep_grows (p ∷ ps) ex j h =
    let grows = contains ex p.ppid && not (contains ex p.pid) in
    sweep_grows ps (if grows then p.pid ∷ ex else ex) j (ground arith)

pub sweep_least :
    (s : ℕ → Bool) (ps : List HostProcess) (ex : List ℕ)
    → HoldsChildren s ps
    → ((j : ℕ) → contains ex j ≡ true → s j ≡ true)
    → (j : ℕ) → contains (sweep ps ex).0 j ≡ true
    → s j ≡ true
unfolding sweep contains
sweep_least s [] ex c f j h = f j h
sweep_least s (p ∷ ps) ex c f j h =
    let grows = contains ex p.ppid && not (contains ex p.pid) in
    sweep_least s ps (if grows then p.pid ∷ ex else ex) c.1
      (λ i k. ground (arith, f i, f p.ppid, c.0)) j h

-- A pass that changes nothing finds every child in the set.
pub sweep_stable :
    (ps : List HostProcess) (ex : List ℕ)
    → (sweep ps ex).1 ≡ false
    → ((sweep ps ex).0 ≡ ex) × HoldsChildren (contains ex) ps
unfolding sweep
sweep_stable [] ex h = (refl, tt)
sweep_stable (p ∷ ps) ex h =
    let grows = contains ex p.ppid && not (contains ex p.pid) in
    let still : grows ≡ false = ground arith in
    let (same, children) = sweep_stable ps ex (ground arith) in
    (ground arith, (λ k. ground arith, children))

-- A pass that changes something adds a process.
pub sweep_adds :
    (ps : List HostProcess) (ex : List ℕ)
    → (sweep ps ex).1 ≡ true
    → (j : ℕ) × (contains (map (λ (p : HostProcess). p.pid) ps) j ≡ true)
      × (contains ex j ≡ false)
      × (contains (sweep ps ex).0 j ≡ true)
unfolding sweep contains
sweep_adds [] ex h = absurd (ground arith)
sweep_adds (p ∷ ps) ex h = elim (Bool-cases (contains ex p.ppid && not (contains ex p.pid))) [
  | inl t ↦
      (p.pid, ground arith, ground arith, rw t (sweep_grows ps (p.pid ∷ ex) p.pid (ground arith)))
  | inr f ↦
      let (j, here, out, into) = sweep_adds ps ex (ground arith) in
      (j, ground arith, out, rw f into)
]

-- How many processes are not in the set.
unfoldable pub missing : List ℕ → List HostProcess → ℕ
missing ex [] = 0
missing ex (p ∷ ps) = (if contains ex p.pid then 0 else 1) + missing ex ps

pub missing-le-length : (ex : List ℕ) (ps : List HostProcess) → missing ex ps ≤ length ps
unfolding missing
missing-le-length ex [] = omega arith
missing-le-length ex (p ∷ ps) = ground (arith, missing-le-length ex ps)

missing_mono :
    (few many : List ℕ)
    → Within few many
    → (ps : List HostProcess) → missing many ps ≤ missing few ps
unfolding missing
missing_mono few many w [] = omega arith
missing_mono few many w (p ∷ ps) = ground (arith, missing_mono few many w ps, w p.pid)

pub missing_strict :
    (few many : List ℕ)
    → Within few many
    → (ps : List HostProcess) (j : ℕ) → contains (map (λ (p : HostProcess). p.pid) ps) j ≡ true
    → contains few j ≡ false
    → contains many j ≡ true
    → missing many ps < missing few ps
unfolding missing contains
missing_strict few many w [] j here out into = absurd (ground arith)
missing_strict few many w (p ∷ ps) j here out into = elim (ℕ_discrete p.pid j) [
  | yes e ↦ ground (arith, missing_mono few many w ps)
  | no e ↦ ground (arith, missing_strict few many w ps j (ground arith) out into, w p.pid)
]
