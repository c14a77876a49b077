-- ===== src/Openssh/Control.antt =====
-- The commands to a running master: `cli/internal/openssh/control.go`, and the classification of errors
-- and the bounded buffer of `cli/internal/openssh/process.go`.
pub mod Buffer
use ssh_forward.Core.Types.{
  Error, backend, direction_eq, key_eq, message, state_eq, target_eq, transport_unavailable,
}
use ssh_forward.Prelude.{
  Bool, Option, Str, [], bool_eq, bytes, contains_text, false, if◌then◌else◌, leb, length, nat_eq,
  none, not, some, str_eq, suc, to_lower, trim_space, true, zero, ℕ, ◌&&◌, ◌++◌, ◌+◌, ◌-◌, ◌==◌,
  ◌||◌, ◌∷◌,
}

-- `s[n:]`
abbrev pub drop : ℕ → Str → Str
drop zero s = s
drop (suc n) [] = []
drop (suc n) (c ∷ s) = drop n s

-- `boundedBuffer.Write` on the data in the buffer.
unfoldable pub write : ℕ → Str → Str → Str
write limit buffered added =
    if leb limit (length added)
    then drop (length added - limit) added
    else drop (length buffered + length added - limit) buffered ++ added

-- `classifyError`
unfoldable pub classify_error : Bool → Str → Error
classify_error false stderr = Error.backend transport_unavailable
classify_error true stderr =
    let message = to_lower stderr in
    if contains_text message (bytes "permission denied")
      || contains_text message (bytes "too many authentication failures")
      || contains_text message (bytes "no supported authentication methods")
    then Error.backend (bytes "authentication_failed")
    else if contains_text message (bytes "host key verification failed")
        || contains_text message (bytes "remote host identification has changed")
    then Error.backend (bytes "host_key_failed")
    else if contains_text message (bytes "address already in use")
        || contains_text message (bytes "cannot listen to port")
    then Error.backend (bytes "local_port_conflict")
    else Error.backend transport_unavailable

-- `controlForward`
pub record ControlForward : Type 0 where
  pub flag : Str
  pub spec : Str

-- `controlCommandError`
pub record ControlCommandError : Type 0 where
  pub diagnostic : Error
  pub uncertain : Bool
  pub rejected : Bool

-- The process of an `ssh -O` that was started: whether `Run` fails, whether it exited by itself, whether
-- the context is over, and what it wrote to its error stream.
pub record CommandProcess : Type 0 where
  pub fails : Bool
  pub exited : Bool
  pub context_over : Bool
  pub stderr : Str

-- What a run of `ssh -O` comes to: without a process `Run` fails and nothing is written.
pub data CommandRun : Type 0 where
  never_started : CommandRun
  ran : CommandProcess → CommandRun

abbrev pub run_fails : CommandRun → Bool
run_fails never_started = true
run_fails (ran process) = process.fails

pub data Operation : Type 0 where
  forward cancel check exit : Operation

-- Whether a message without an error is no failure of the operation.
unfoldable pub is_accepted : Operation → Str → Bool
is_accepted Operation.forward text = text == []
is_accepted Operation.cancel text = contains_text text (bytes "port not forwarded") || text == []
is_accepted Operation.check text = true
is_accepted Operation.exit text = true

unfoldable pub is_refusal : Str → Bool
is_refusal text =
    contains_text text (bytes "mux_client_forward: forwarding request failed:")
    || contains_text text (bytes "cannot listen to port")
    || contains_text text (bytes "address already in use")

abbrev pub message_of : CommandRun → Str
message_of never_started = []
message_of (ran process) = to_lower (trim_space process.stderr)

-- Whether a process was started, `command.Process != nil`.
abbrev pub was_started : CommandRun → Bool
was_started never_started = false
was_started (ran process) = true

-- Whether the process exited by itself before the context was over.
abbrev pub has_exited : CommandRun → Bool
has_exited never_started = false
has_exited (ran process) = not process.context_over && process.exited

-- The failure that `runControlCommand` returns where the operation is not accepted.
unfoldable pub control_failure : CommandRun → ControlCommandError
unfolding classify_error is_refusal
control_failure run =
    let refused = has_exited run && is_refusal (message_of run) in
    let uncertain = was_started run && not refused in
    record {
      diagnostic =
          if uncertain
          then Error.backend transport_unavailable
          else classify_error (run_fails run) (message_of run);
      uncertain = uncertain;
      rejected = refused;
    }

unfoldable pub run_control_command : Operation → CommandRun → Option ControlCommandError
unfolding is_accepted control_failure
run_control_command operation run =
    if not (run_fails run) && is_accepted operation (message_of run)
    then none
    else some (control_failure run)
