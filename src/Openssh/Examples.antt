-- ===== src/Openssh/Examples.antt =====
-- The theorems of the adapter at concrete inputs, and runs of its functions.
use ssh_forward.Core.Types.{
  Error, ForwardDirection, ForwardDirection-discrete, ForwardTarget, direction_eq, error_diagnostic,
  key_eq, state_eq, target_eq, transport_unavailable,
}
use ssh_forward.Openssh.Control.{
  CommandRun, ControlForward, Operation, classify_error, control_failure, is_accepted, is_refusal,
  never_started, ran, run_control_command,
}
use ssh_forward.Openssh.Control.Buffer.{concat, tail_of, write_all, write_all_lem}
use ssh_forward.Openssh.Forward.{
  ForwardInput, Moment, StartInput, adapter_forward, await_ready, cancel_forward, close_adapter,
  confirm_forward, control, control_forward_for, ensure_master, hold_forward, install_forward,
  is_current, is_port_taken, launch_master, probes, report_ready, run_forward,
  start_control_forward, start_master, stop_master, tick, use_master,
}
use ssh_forward.Openssh.Forward.Cleanup.{adapter_forward-cancels}
use ssh_forward.Openssh.Forward.Closed.{close_adapter_lem, closes, ensures, run_adapter}
use ssh_forward.Openssh.Forward.Failures.{install_forward-error, is_conflict, is_refused}
use ssh_forward.Openssh.Forward.Ready.{IsConfirmed, adapter_forward-reports}
use ssh_forward.Openssh.Forward.Watched.{IsInstalled, cancellations, ready_calls, reports}
use ssh_forward.Openssh.Scanner.{
  ScanInput, add_listener, apply_banners, classify, classify_socket, classify_sockets, hide_known,
  learn_banners, probe_line, read_banners, read_snapshot, scan_listeners, scan_round,
}
use ssh_forward.Openssh.Scanner.Known.{known_after, scan_round_lem, shown_after}
use ssh_forward.Openssh.Scanner.Round.{listed, socket_at}
use ssh_forward.Openssh.Scanner.Stream.{
  Accounts, RunsCleanly, observations, scan_listeners-error, scan_listeners-hides,
}
use ssh_forward.Openssh.Snapshot.{
  CapabilitySnapshot, SnapshotBanner, SnapshotSocket, SnapshotSocket-discrete, best_sockets,
  collect_docker, collect_owners, collect_processes, first_items, metadata, reachable_sockets,
  sanitize_metadata, socket_eq, socket_reachable,
}
use ssh_forward.Openssh.Snapshot.Reachable.{IsShown, ports_of, reachable_sockets_lem}
use ssh_forward.Prelude.{
  All, Bool, Increasing, List, Option, Str, Str-discrete, [], arith, bool_eq, bytes, contains,
  contains_text, delete, delete_if, false, format_uint, has_prefix, if◌then◌else◌, insert,
  insert_sorted, is_some, join, length, lookup, nat_eq, none, ok, path_base, refl, some, sort_func,
  str_eq, take, to_lower, to_upper, trim_prefix, trim_space, true, ℕ, ℕ_discrete, ◌<◌, ◌==◌, ◌↔◌,
  ◌∷◌, ◌≡◌, ◌≤◌, ◌⊎◌,
}

abbrev web_socket : SnapshotSocket
web_socket = record { addr = bytes "0100007F"; port = 8080; uid = bytes "1000"; inode = 5 }

abbrev old_socket : SnapshotSocket
old_socket = record { addr = bytes "00000000"; port = 8080; uid = bytes "1000"; inode = 7 }

abbrev ssh_socket : SnapshotSocket
ssh_socket = record { addr = bytes "0100007F"; port = 2222; uid = bytes "0"; inode = 9 }

abbrev foreign_socket : SnapshotSocket
foreign_socket = record { addr = bytes "00000000"; port = 9000; uid = bytes "0"; inode = 3 }

abbrev snapshot : CapabilitySnapshot
snapshot = record {
  uid = bytes "1000";
  v6 = bytes "1";
  sockets = old_socket ∷ ssh_socket ∷ foreign_socket ∷ web_socket ∷ [];
  owners = record { inode = 5; pid = 40 } ∷ [];
  processes = record { pid = 40; exe = bytes "/usr/bin/node"; cwd = bytes "/srv/web" } ∷ [];
  docker = [];
}

-- Names the functions that the runs below compute.
scanner_code : Unit {0}
unfolding scan_listeners read_snapshot read_banners probe_line join classify classify_socket
    classify_sockets reachable_sockets best_sockets first_items socket_reachable socket_at metadata
    collect_processes collect_owners collect_docker sanitize_metadata SnapshotSocket-discrete
    learn_banners hide_known apply_banners scan_round add_listener to_upper lookup insert delete
    delete_if contains has_prefix path_base format_uint sort_func insert_sorted take trim_prefix
    ℕ_discrete Str-discrete
scanner_code = tt

reachable_sockets_run : reachable_sockets snapshot ≡ ssh_socket ∷ web_socket ∷ []
unfolding scanner_code
reachable_sockets_run = refl

abbrev banners : List SnapshotBanner
banners = record { port = 2222; banner = bytes "SSH-2.0-OpenSSH" } ∷ []

scan_round_run : scan_round snapshot banners [] ≡ (
  record { port = 8080; app = bytes "node"; working_directory = bytes "/srv/web" } ∷ [],
  (2222, ssh_socket) ∷ [],
)
unfolding scanner_code
scan_round_run = refl

reachable_sockets_lem_example :
    Increasing (ports_of (reachable_sockets snapshot))
    × (length (reachable_sockets snapshot) ≤ 256)
    × All (IsShown snapshot) (reachable_sockets snapshot)
    × ((t : SnapshotSocket)
        → contains snapshot.sockets t ≡ true
        → socket_reachable t snapshot.uid snapshot.v6 ≡ true
        → (contains (ports_of (reachable_sockets snapshot)) t.port ≡ true)
          ⊎ ((length (reachable_sockets snapshot) ≡ 256)
              × All (λ p. p < t.port) (ports_of (reachable_sockets snapshot))))
reachable_sockets_lem_example = reachable_sockets_lem snapshot

scan_round_lem_example :
    (lookup 2222 (scan_round snapshot banners []).1
      ≡ known_after snapshot banners [] 2222 (socket_at 2222 (reachable_sockets snapshot)))
    × (listed 2222 (scan_round snapshot banners []).0
        ≡ shown_after snapshot banners [] 2222 (socket_at 2222 (reachable_sockets snapshot)))
scan_round_lem_example = scan_round_lem snapshot banners [] 2222

-- A decoder that knows one observation and one reply.
abbrev scan_input : ScanInput
scan_input = record {
  decode_snapshot = λ line. if line == bytes "{}" then some snapshot else none;
  decode_banners = λ line. if line == bytes "[]" then some banners else none;
  write_fails = λ round. false;
  read_fails = false;
}

abbrev lines : List Str
lines = bytes "{}" ∷ bytes "[]" ∷ bytes "{}" ∷ bytes "[]" ∷ []

scan_listeners_run :
    (scan_listeners scan_input 0 [] lines).written ≡ bytes "2222\n" ∷ bytes "\n" ∷ []
unfolding scanner_code
scan_listeners_run = refl

scan_listeners-error_example :
    Accounts scan_input (scan_listeners scan_input 0 [] lines) (RunsCleanly scan_input 0 lines)
scan_listeners-error_example = scan_listeners-error scan_input 0 [] lines

-- A decoder that reads a reply as an observation of nothing.
abbrev lenient_input : ScanInput
lenient_input = record scan_input {
  decode_snapshot = λ line.
      if line == bytes "{}"
      then some snapshot
      else some (record snapshot { uid = []; sockets = [] });
}

decoded :
    (line : Str) (s : CapabilitySnapshot)
    → contains (observations lines) line ≡ true
    → lenient_input.decode_snapshot line ≡ some s
    → socket_at 2222 (reachable_sockets s) ≡ some ssh_socket
unfolding scanner_code observations
decoded line s c d = ground arith

scan_listeners-hides_example :
    All
      (λ ls. listed 2222 ls ≡ false)
      (scan_listeners lenient_input 0 ((2222, ssh_socket) ∷ []) lines).emitted
unfolding scanner_code
scan_listeners-hides_example =
    scan_listeners-hides lenient_input 2222 ssh_socket 0 ((2222, ssh_socket) ∷ []) lines refl
      decoded

write_all_lem_example :
    write_all 4 [] (bytes "abc" ∷ bytes "defgh" ∷ bytes "i" ∷ [])
    ≡ tail_of 4 (concat (bytes "abc" ∷ bytes "defgh" ∷ bytes "i" ∷ []))
write_all_lem_example = write_all_lem 4 (bytes "abc" ∷ bytes "defgh" ∷ bytes "i" ∷ [])

-- A master that runs, and a forward on it.
abbrev now : Moment
now = record { adapter = record { closed = false; master = some 1 }; ended = λ master. none }

abbrev accepted_run : CommandRun
accepted_run = ran (record { fails = false; exited = true; context_over = false; stderr = [] })

abbrev lost_run : CommandRun
lost_run = ran (record { fails = true; exited = false; context_over = false; stderr = [] })

abbrev import_target : ForwardTarget
import_target = record {
  direction = ForwardDirection.remote_to_local;
  remote_port = 8080;
  local_port = 18080;
}

abbrev import_command : ControlForward
import_command = record { flag = bytes "-L"; spec = bytes "0.0.0.0:18080:127.0.0.1:8080" }

abbrev forward_input : ForwardInput
forward_input = record {
  ctx = none;
  ensure = record {
    found = record { adapter = record { closed = false; master = none }; ended = λ master. none };
    valid_alias = true;
    over_after = none;
    fresh = ok 1;
    waits = tick false ∷ tick true ∷ [];
  };
  port_available = some (λ port. true);
  installing = now;
  start = record { install = accepted_run; check = accepted_run };
  waits = tick false ∷ tick true ∷ [];
  probe = record {
    fails = false;
    context_error = none;
    probe_over = false;
    master_failure = none;
    output = [];
  };
  over = some Error.canceled;
  cleaning = now;
  cancel = accepted_run;
}

-- Names the functions that the runs below compute.
forward_code : Unit {0}
unfolding adapter_forward use_master run_forward hold_forward install_forward start_control_forward
    cancel_forward ensure_master launch_master await_ready probes confirm_forward
    control_forward_for is_port_taken run_control_command control_failure is_accepted is_refusal
    classify_error format_uint to_lower trim_space contains_text has_prefix contains
    ForwardDirection-discrete ℕ_discrete Str-discrete
forward_code = tt

forward_run : adapter_forward import_target forward_input ≡ record {
  error = some Error.canceled;
  actions =
      control Operation.exit none
      ∷ start_master
      ∷ control Operation.check none
      ∷ control Operation.check none
      ∷ control Operation.forward (some import_command)
      ∷ report_ready
      ∷ control Operation.cancel (some import_command)
      ∷ [];
}
unfolding forward_code
forward_run = refl

install_forward-error_example :
    (true ≡ true
      → false ≡ false
      → install_forward ForwardDirection.remote_to_local import_command 1 now
          (record { install = lost_run; check = accepted_run })
        ≡ (
          some (Error.wrap [] (Error.backend transport_unavailable)),
          control Operation.forward (some import_command) ∷ stop_master 1 ∷ [],
        ))
    × (lost_run ≡ never_started
        → install_forward ForwardDirection.remote_to_local import_command 1 now
            (record { install = lost_run; check = accepted_run })
          ≡ (
            some (Error.wrap [] (Error.backend transport_unavailable)),
            control Operation.forward (some import_command) ∷ [],
          ))
    × (is_conflict (
            error_diagnostic
              (install_forward ForwardDirection.remote_to_local import_command 1 now
                (record { install = lost_run; check = accepted_run })).0)
          ≡ true
        → is_refused lost_run ≡ true)
unfolding forward_code
install_forward-error_example =
    install_forward-error ForwardDirection.remote_to_local import_command 1 now
      (record { install = lost_run; check = accepted_run }) refl refl refl

adapter_forward-reports_example :
    (reports ready_calls (adapter_forward import_target forward_input).actions ≡ true)
    ↔ (master : ℕ) × (f : ControlForward) × IsInstalled import_target forward_input master f
      × IsConfirmed import_target forward_input
adapter_forward-reports_example = adapter_forward-reports import_target forward_input

-- Watches for the cancellation of the forward of the same ports.
abbrev is_import : Option ControlForward → Bool
is_import f = elim f [ none ↦ false | some g ↦ g.spec == import_command.spec ]

adapter_forward-cancels_example :
    (reports (cancellations is_import) (adapter_forward import_target forward_input).actions ≡ true)
    ↔ (master : ℕ) × (f : ControlForward) × IsInstalled import_target forward_input master f
      × (is_import (some f) ≡ true)
      × (is_some (hold_forward import_target master f forward_input).error ≡ true)
      × (is_current forward_input.cleaning.adapter master ≡ true)
      × (forward_input.cleaning.ended master ≡ none)
adapter_forward-cancels_example = adapter_forward-cancels is_import import_target forward_input

close_adapter_lem_example :
    ((close_adapter now.adapter).1 ≡ stop_master 1 ∷ [])
    × (run_adapter
          (close_adapter now.adapter).0
          (ensures none (λ master. none) forward_input.ensure ∷ closes ∷ [])
        ≡ ((close_adapter now.adapter).0, []))
    × ((direction : ForwardDirection) (f : ControlForward) (master : ℕ) (ended : ℕ → Option Error)
          (input : StartInput) (run : CommandRun)
        → let later : Moment = record { adapter = (close_adapter now.adapter).0; ended = ended } in
          (install_forward direction f master later input
            ≡ (some (Error.backend transport_unavailable), []))
          × (cancel_forward master f later run ≡ []))
close_adapter_lem_example =
    close_adapter_lem now.adapter (ensures none (λ master. none) forward_input.ensure ∷ closes ∷ [])
      refl
