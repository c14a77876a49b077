-- ===== src/View/Diagnostics.antt =====
-- The texts of diagnostics: `cli/internal/diagnostics/diagnostics.go`.
use ssh_forward.Core.Types.{direction_eq, key_eq, state_eq, target_eq}
use ssh_forward.Prelude.{
  Map, Str, [], bool_eq, bytes, false, has, has_prefix, if◌then◌else◌, length, lookup, nat_eq, not,
  str_eq, suc, true, value_or, zero, ℕ, ◌++◌, ◌-◌, ◌==◌, ◌||◌, ◌∷◌,
}

pub record Entry : Type 0 where
  pub text : Str
  pub doctor_text : Str
  pub doctor_fix : Str

-- An entry with no text of its own for the doctor.
abbrev entry : Str → Str → Entry
entry text fix = record { text = text; doctor_text = []; doctor_fix = fix }

unfoldable pub catalog : Map Str Entry
catalog =
    (
      bytes "invalid_alias",
      record {
        text = bytes "SSH does not know this host alias.";
        doctor_text = bytes "OpenSSH does not recognize this host alias";
        doctor_fix = bytes "Use a literal Host alias from the selected OpenSSH config.";
      },
    )
    ∷ (
      bytes "authentication_failed",
      entry (bytes "SSH authentication failed.")
          (bytes "Run ssh {host} and verify the configured key or SSH agent."),
    )
    ∷ (
      bytes "host_key_failed",
      entry (bytes "SSH host key verification failed.")
          (bytes "Run ssh {host} and review the host key warning."),
    )
    ∷ (bytes "local_port_conflict", entry (bytes "the same local port is already in use") [])
    ∷ (
      bytes "local_port_reserved",
      entry (bytes "the local port is reserved by a published forward")
          (bytes "Choose another --local port or remove one intent."),
    )
    ∷ (
      bytes "remote_port_unavailable",
      entry (bytes "the Development Host port could not be opened") (
          bytes
            "Check whether the remote port is occupied and whether sshd allows TCP forwarding."),
    )
    ∷ (
      bytes "remote_bind_not_loopback",
      entry (bytes "the Development Host forced the published port onto a non-loopback address") (
          bytes "Set sshd GatewayPorts to no or clientspecified before publishing local services."),
    )
    ∷ (
      bytes "remote_bind_unverified",
      entry (bytes "the Development Host loopback bind could not be verified") (
          bytes
            "Verify that the Development Host is Linux with readable procfs and that sshd GatewayPorts is not yes."),
    )
    ∷ (bytes "invalid_forward_direction", entry (bytes "the forwarding direction is invalid") [])
    ∷ (bytes "transport_unavailable", entry (bytes "SSH connection unavailable") [])
    ∷ (
      bytes "discovery_invalid",
      entry (bytes "the remote listener scan returned invalid data") (
          bytes "Verify that the remote host is Linux and exposes readable procfs listener state."),
    )
    ∷ (
      bytes "forward_start_timeout",
      entry (bytes "OpenSSH did not open the local port in time") [],
    )
    ∷ (
      bytes "master_start_timeout",
      entry (bytes "the shared OpenSSH connection did not become ready in time")
          (bytes "Run ssh -v {host} to inspect connection details."),
    )
    ∷ []

-- `cmp.Or` of two strings.
abbrev pub or_text : Str → Str → Str
or_text first second = if first == [] then second else first

-- `catalog[diagnostic]`
abbrev entry_at : Str → Entry
entry_at diagnostic = value_or (lookup diagnostic catalog) (entry [] [])

-- `Text`
unfoldable pub text_of : Str → Str
unfolding catalog
text_of diagnostic = or_text (entry_at diagnostic).text diagnostic

-- `strings.TrimSuffix(text, ".")`
unfoldable pub trim_stop : Str → Str
trim_stop [] = []
trim_stop (c ∷ []) = if c == b'.' then [] else c ∷ []
trim_stop (c ∷ d ∷ rest) = c ∷ trim_stop (d ∷ rest)

-- `strings.ReplaceAll`, where `skip` bytes of the last match are still to be left out.
unfoldable pub replace_all : Str → Str → ℕ → Str → Str
replace_all old new skip [] = []
replace_all old new (suc skip) (c ∷ rest) = replace_all old new skip rest
replace_all old new zero (c ∷ rest) = elim (has_prefix (c ∷ rest) old) [
  | true ↦ new ++ replace_all old new (length old - 1) rest
  | false ↦ c ∷ replace_all old new zero rest
]

unfoldable pub doctor_fix_of : Str → Str → Str
unfolding replace_all catalog
doctor_fix_of diagnostic host = replace_all (bytes "{host}") host 0 (entry_at diagnostic).doctor_fix

-- `DoctorAdvice`
unfoldable pub doctor_advice : Str → Str → Str × Str
unfolding doctor_fix_of trim_stop
doctor_advice diagnostic host =
    let found = entry_at diagnostic in
    if not (has diagnostic catalog) || found.doctor_fix == []
    then (
      bytes "SSH connection or remote listener discovery is unavailable",
      bytes "Run ssh -v " ++ host ++ bytes " to inspect connection details.",
    )
    else (or_text found.doctor_text (trim_stop found.text), doctor_fix_of diagnostic host)
