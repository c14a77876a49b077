-- ===== src/Core/Worker.antt =====
-- One round of a worker: `forwardOnce` of `cli/internal/core/worker.go`.
pub mod Attempts
use ssh_forward.Core.Types.{
  DesiredForward, Error, ForwardDirection, ForwardTarget, backend, canceled, direction_eq,
  error_diagnostic, key_eq, remote_to_local, state_eq, target_eq,
}
use ssh_forward.Prelude.{
  Bool, List, Option, Str, [], bool_eq, bytes, if◌then◌else◌, ltb, nat_eq, none, not, some, str_eq,
  suc, zero, ℕ, ◌%◌, ◌&&◌, ◌+◌, ◌-◌, ◌==◌, ◌^◌, ◌∷◌,
}

abbrev pub max_temporary_port_offset : ℕ
max_temporary_port_offset = 20

abbrev pub maximum_tcp_port : ℕ
maximum_tcp_port = 2 ^ 16 - 1

abbrev pub local_port_conflict : Str
local_port_conflict = bytes "local_port_conflict"

abbrev pub local_port_reserved_error : Error
local_port_reserved_error = Error.backend (bytes "local_port_reserved")

-- What the worker meets at each offset: whether the manager has reserved a port then, what
-- `backend.Forward` returns for a target, and whether the worker's context is done after that. The
-- manager's state can change between two offsets, so each answer depends on the offset.
pub record Surroundings : Type 0 where
  pub reserved : ℕ → ℕ → Bool
  pub outcome : ℕ → ForwardTarget → Option Error
  pub cancelled : ℕ → Bool

unfoldable pub maximum_offset : DesiredForward → ℕ
maximum_offset d =
    if d.preferred.direction == ForwardDirection.remote_to_local && d.allow_fallback
    then max_temporary_port_offset
    else 0

-- `candidate.LocalPort += uint16(offset)`
unfoldable pub candidate_at : DesiredForward → ℕ → ForwardTarget
candidate_at d offset = record (d.preferred) {
  local_port = (d.preferred.local_port + offset) % 2 ^ 16;
}

module _ (around : Surroundings) (d : DesiredForward) where
  -- Whether the round goes on after this error.
  unfoldable pub falls_back : Option Error → Bool
  falls_back e = d.allow_fallback && error_diagnostic e == local_port_conflict

  -- The loop, with the number of rounds that are left, the offset and `lastErr`: the targets for which
  -- the worker reports `starting` and calls `backend.Forward`, in order, and the error returned.
  unfoldable pub attempts : ℕ → ℕ → Option Error → List ForwardTarget × Option Error
  attempts zero offset last = ([], last)
  attempts (suc rounds) offset last =
      let candidate = candidate_at d offset in
      let e = around.outcome offset candidate in
      let skipped = attempts rounds (offset + 1) (some local_port_reserved_error) in
      let rest = attempts rounds (offset + 1) e in
      if ltb maximum_tcp_port (d.preferred.local_port + offset)
      then ([], last)
      else if d.preferred.direction == ForwardDirection.remote_to_local
          && around.reserved offset candidate.local_port
      then skipped
      else if around.cancelled offset
      then (candidate ∷ [], some Error.canceled)
      else if not (falls_back e)
      then (candidate ∷ [], e)
      else (candidate ∷ rest.0, rest.1)

  unfoldable pub forward_once : List ForwardTarget × Option Error
  forward_once = attempts (suc (maximum_offset d)) 0 none
