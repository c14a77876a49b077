-- ===== src/App/Discovery.antt =====
-- The hosts that running processes are connected to: `discoverProcesses` of
-- `cli/internal/app/host_discovery.go`. A process identifier is a number.
pub mod Sweep
pub mod Closure
pub mod Found
use ssh_forward.App.Processes.{parse_ssh_process}
use ssh_forward.App.TargetId.{target_id}
use ssh_forward.App.Targets.{HostTarget}
use ssh_forward.Core.Types.{direction_eq, key_eq, state_eq, target_eq}
use ssh_forward.Prelude.{
  Bool, List, Map, Option, Str, [], bool_eq, bytes, contains, false, if◌then◌else◌, insert, length,
  nat_eq, none, not, some, str_eq, suc, value_or, zero, ℕ, ◌&&◌, ◌==◌, ◌||◌, ◌∷◌,
}

pub record HostProcess : Type 0 where
  pub pid : ℕ
  pub ppid : ℕ
  pub uid : ℕ
  pub name : Str

abbrev pub own_name : Str
own_name = bytes "ssh-forward"

-- The first loop; `excluded` is the set of the identifiers that the map holds.
unfoldable pub exclude_named : List HostProcess → List ℕ → List ℕ
exclude_named [] excluded = excluded
exclude_named (p ∷ rest) excluded =
    exclude_named rest (if p.name == own_name then p.pid ∷ excluded else excluded)

-- One pass of the second loop, with the value of `changed` after it.
unfoldable pub sweep : List HostProcess → List ℕ → List ℕ × Bool
sweep [] excluded = (excluded, false)
sweep (p ∷ rest) excluded =
    let grows = contains excluded p.ppid && not (contains excluded p.pid) in
    let (swept, changed) = sweep rest (if grows then p.pid ∷ excluded else excluded) in
    (swept, grows || changed)

module _ (processes : List HostProcess) where
  -- The second loop, with a bound on its passes; `none` where they are not enough.
  unfoldable pub exclude_children : ℕ → List ℕ → Option (List ℕ)
  exclude_children zero excluded = none
  exclude_children (suc passes) excluded =
      let (swept, changed) = sweep processes excluded in
      let again = exclude_children passes swept in if changed then again else some swept

  unfoldable pub excluded_processes : ℕ → Option (List ℕ)
  unfolding exclude_named exclude_children
  excluded_processes own_pid =
      exclude_children (suc (length processes)) (exclude_named processes (own_pid ∷ []))

-- The last loop of `discoverProcesses`: the reader of arguments, which may fail, and the sum that
-- identifiers are made of are parameters.
module _ (uid : ℕ) (excluded : List ℕ) (read_args : ℕ → Option (List Str))
    (sum : HostTarget → Str) where
  unfoldable pub is_skipped : HostProcess → Bool
  is_skipped p = not (p.uid == uid) || contains excluded p.pid || not (p.name == bytes "ssh")

  unfoldable pub process_target : HostProcess → Option HostTarget
  unfolding is_skipped parse_ssh_process
  process_target p = if is_skipped p then none else elim (read_args p.pid) [
    | none ↦ none
    | some args ↦ if length args == 0 then none else parse_ssh_process args
  ]

  -- `targets[targetID(target)] = target`; the identifier is never missing.
  unfoldable pub put_target : Option HostTarget → Map Str HostTarget → Map Str HostTarget
  unfolding target_id
  put_target none targets = targets
  put_target (some target) targets = insert (value_or (target_id sum target) []) target targets

  unfoldable pub find_targets : List HostProcess → Map Str HostTarget → Map Str HostTarget
  unfolding process_target put_target
  find_targets [] targets = targets
  find_targets (p ∷ rest) targets = find_targets rest (put_target (process_target p) targets)

unfoldable pub discover_processes :
    List HostProcess
    → ℕ
    → ℕ
    → (ℕ → Option (List Str))
    → (HostTarget → Str)
    → Option (Map Str HostTarget)
unfolding excluded_processes find_targets
discover_processes processes own_pid uid read_args sum =
    elim (excluded_processes processes own_pid) [
      | none ↦ none
      | some excluded ↦ some (find_targets uid excluded read_args sum processes [])
    ]
