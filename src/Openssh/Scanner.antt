-- ===== src/Openssh/Scanner.antt =====
-- The scanner of remote listeners: `cli/internal/openssh/scanner.go`. The decoder of JSON is a
-- parameter of the loop, and so are the lines that the remote script prints.
pub mod Round
pub mod Known
pub mod Stream
use ssh_forward.Core.Types.{Listener, direction_eq, key_eq, state_eq, target_eq}
use ssh_forward.Openssh.Snapshot.{
  CapabilitySnapshot, SnapshotBanner, SnapshotSocket, max_observed_app_bytes,
  max_observed_directory_bytes, metadata, reachable_sockets, sanitize_metadata, socket_eq,
}
use ssh_forward.Prelude.{
  Bool, List, Map, Option, Str, [], bool_eq, bytes, contains, delete, delete_if, false, format_uint,
  has, has_prefix, if◌then◌else◌, insert, join, lookup, map, nat_eq, none, not, some, str_eq, suc,
  true, ℕ, ◌&&◌, ◌++◌, ◌==◌, ◌||◌, ◌∷◌,
}

-- What the last loop of `classify` builds.
pub record Classified : Type 0 where
  pub known_ssh : Map ℕ SnapshotSocket
  pub listeners : List Listener
  pub probe : List ℕ
  pub present : Map ℕ SnapshotSocket

abbrev pub sshd : Str
sshd = bytes "sshd"

abbrev pub listener_of : SnapshotSocket → Str → Str → Listener
listener_of socket app directory = record {
  port = socket.port;
  app = sanitize_metadata app max_observed_app_bytes;
  working_directory = sanitize_metadata directory max_observed_directory_bytes;
}

-- The body of the loop for a socket that is not a known SSH server, with its app and directory.
unfoldable pub add_listener : SnapshotSocket → Str × Str → Classified → Classified
add_listener socket (app, directory) c =
    let c' = record c { known_ssh = delete socket.port c.known_ssh } in
    if app == sshd then c' else record c' {
      listeners = c.listeners ++ listener_of socket app directory ∷ [];
      probe = if app == [] then c.probe ++ socket.port ∷ [] else c.probe;
    }

-- `cached == socket`, where there is one.
abbrev pub is_cached : Option SnapshotSocket → SnapshotSocket → Bool
is_cached none socket = false
is_cached (some cached) socket = cached == socket

unfoldable pub classify_socket : CapabilitySnapshot → SnapshotSocket → Classified → Classified
unfolding add_listener
classify_socket snapshot socket c =
    let c' = record c { present = insert socket.port socket c.present } in
    if is_cached (lookup socket.port c.known_ssh) socket
    then c'
    else add_listener socket (metadata snapshot socket) c'

unfoldable pub classify_sockets : CapabilitySnapshot → List SnapshotSocket → Classified → Classified
unfolding classify_socket
classify_sockets snapshot [] c = c
classify_sockets snapshot (socket ∷ rest) c =
    classify_sockets snapshot rest (classify_socket snapshot socket c)

unfoldable pub classify : CapabilitySnapshot → Map ℕ SnapshotSocket → Classified
unfolding classify_sockets
classify snapshot known_ssh =
    classify_sockets snapshot (reachable_sockets snapshot)
      (record { known_ssh = known_ssh; listeners = []; probe = []; present = [] })

-- The loop over the banners: a probed port with the banner of an SSH server becomes known.
unfoldable pub learn_banners :
    List ℕ
    → Map ℕ SnapshotSocket
    → List SnapshotBanner
    → Map ℕ SnapshotSocket
    → Map ℕ SnapshotSocket
learn_banners probe present [] known = known
learn_banners probe present (b ∷ rest) known =
    learn_banners probe present rest (elim (lookup b.port present) [
      | none ↦ known
      | some socket ↦
          if contains probe b.port && has_prefix b.banner (bytes "SSH-")
          then insert b.port socket known
          else known
    ])

-- Whether a known socket is no longer there.
abbrev pub is_gone : Option SnapshotSocket → Option SnapshotSocket → Bool
is_gone cached none = true
is_gone cached (some socket) = not (is_cached cached socket)

-- `slices.DeleteFunc` on the listeners.
unfoldable pub hide_known : Map ℕ SnapshotSocket → List Listener → List Listener
hide_known known [] = []
hide_known known (l ∷ rest) =
    let shown = hide_known known rest in if has l.port known then shown else l ∷ shown

-- The listeners that are left, and what is known then.
unfoldable pub apply_banners :
    Classified → List SnapshotBanner → List Listener × Map ℕ SnapshotSocket
unfolding learn_banners hide_known
apply_banners c banners =
    let learned = learn_banners c.probe c.present banners c.known_ssh in
    let known = delete_if (λ p. is_gone (lookup p learned) (lookup p c.present)) learned in
    (hide_known known c.listeners, known)

-- One observation and its banners.
unfoldable pub scan_round :
    CapabilitySnapshot
    → List SnapshotBanner
    → Map ℕ SnapshotSocket
    → List Listener × Map ℕ SnapshotSocket
unfolding classify apply_banners
scan_round snapshot banners known = apply_banners (classify snapshot known) banners

pub data ScanError : Type 0 where
  invalid_snapshot write_failed read_failed : ScanError

-- What `scanListeners` has emitted and written when it returns, and its error.
pub record ScanRun : Type 0 where
  pub emitted : List (List Listener)
  pub written : List Str
  pub error : Option ScanError

-- The decoders of JSON, whether the write of a round fails, and whether reading ends by an error.
pub record ScanInput : Type 0 where
  pub decode_snapshot : Str → Option CapabilitySnapshot
  pub decode_banners : Str → Option (List SnapshotBanner)
  pub write_fails : ℕ → Bool
  pub read_fails : Bool

abbrev pub stopped_by : Option ScanError → ScanRun
stopped_by e = record { emitted = []; written = []; error = e }

-- The ports to probe, as the line that is written.
unfoldable pub probe_line : List ℕ → Str
probe_line probe = join (b' ' ∷ []) (map (format_uint 10) probe) ++ b'\n' ∷ []

module _ (input : ScanInput) where
  -- The line of an observation, where it is accepted.
  unfoldable pub read_snapshot : Str → Option CapabilitySnapshot
  read_snapshot line = elim (input.decode_snapshot line) [
    | none ↦ none
    | some snapshot ↦ if line == [] || snapshot.uid == [] then none else some snapshot
  ]

  unfoldable pub read_banners : Str → Option (List SnapshotBanner)
  read_banners line = if line == [] then none else input.decode_banners line

  -- The end of the lines where an observation or a reply was expected.
  abbrev pub no_snapshot : ScanRun
  no_snapshot = stopped_by (if input.read_fails then some read_failed else none)

  abbrev pub no_reply : ScanError
  no_reply = if input.read_fails then read_failed else invalid_snapshot

  abbrev pub write_error : ℕ → ScanError → Option ScanError
  write_error round e = if input.write_fails round then some write_failed else some e

  -- The loop of `scanListeners` over the lines, by the number of the round.
  unfoldable pub scan_listeners : ℕ → Map ℕ SnapshotSocket → List Str → ScanRun
  scan_listeners round known [] = no_snapshot
  scan_listeners round known (line ∷ []) = elim (read_snapshot line) [
    | none ↦ stopped_by (some invalid_snapshot)
    | some snapshot ↦ record {
      emitted = [];
      written =
          if input.write_fails round then [] else probe_line (classify snapshot known).probe ∷ [];
      error = write_error round no_reply;
    }
  ]
  scan_listeners round known (line ∷ reply ∷ rest) = elim (read_snapshot line) [
    | none ↦ stopped_by (some invalid_snapshot)
    | some snapshot ↦
        let c = classify snapshot known in
        if input.write_fails round
        then stopped_by (some write_failed)
        else elim (read_banners reply) [
          | none ↦ record {
            emitted = [];
            written = probe_line c.probe ∷ [];
            error = some invalid_snapshot;
          }
          | some banners ↦
              let (listeners, known') = apply_banners c banners in
              let later = scan_listeners (suc round) known' rest in
              record later {
                emitted = listeners ∷ later.emitted;
                written = probe_line c.probe ∷ later.written;
              }
        ]
  ]
