-- ===== src/Openssh/Snapshot.antt =====
-- One observation of a host, and what `classify` of `cli/internal/openssh/scanner.go` reads off it: the
-- best socket of each port, and the app and directory of a socket.
pub mod Best
pub mod Reachable
use ssh_forward.Core.Types.{direction_eq, key_eq, state_eq, target_eq}
use ssh_forward.Prelude.{
  Bool, Eq, List, Map, Option, Ordering, Str, Str-discrete, [], bool_eq, bytes, compare, false,
  format_uint, has, if◌then◌else◌, insert, leb, length, lookup, ltb, nat_eq, none, not, parse_uint,
  path_base, some, sort_func, str_eq, suc, take, to_upper, to_valid_utf8, trim_prefix, true,
  value_or, values, zero, ℕ, ℕ_discrete, ◌&&◌, ◌-◌, ◌==◌, ◌^◌, ◌||◌, ◌∷◌,
}

abbrev pub max_observed_ports : ℕ
max_observed_ports = 256

abbrev pub max_observed_app_bytes : ℕ
max_observed_app_bytes = 255

abbrev pub max_observed_directory_bytes : ℕ
max_observed_directory_bytes = 768

abbrev pub proc_v4_loopback : Str
proc_v4_loopback = bytes "0100007F"

abbrev pub proc_v4_wildcard : Str
proc_v4_wildcard = bytes "00000000"

abbrev pub proc_v6_wildcard : Str
proc_v6_wildcard = bytes "00000000000000000000000000000000"

abbrev pub proc_v4_mapped : Str
proc_v4_mapped = bytes "0000000000000000FFFF00000100007F"

pub record SnapshotSocket : Type 0 where
  pub addr : Str
  pub port : ℕ
  pub uid : Str
  pub inode : ℕ

unfoldable pub SnapshotSocket-discrete : Discrete SnapshotSocket
SnapshotSocket-discrete = hlevel (Str-discrete, ℕ_discrete)

instance abbrev pub socket_eq : Eq SnapshotSocket
socket_eq = record { dec = SnapshotSocket-discrete }

pub record SnapshotOwner : Type 0 where
  pub inode : ℕ
  pub pid : ℕ

pub record SnapshotProcess : Type 0 where
  pub pid : ℕ
  pub exe : Str
  pub cwd : Str

pub record SnapshotDocker : Type 0 where
  pub port : ℕ
  pub service : Str
  pub dir : Str
  pub name : Str

pub record SnapshotBanner : Type 0 where
  pub port : ℕ
  pub banner : Str

pub record CapabilitySnapshot : Type 0 where
  pub uid : Str
  pub v6 : Str
  pub sockets : List SnapshotSocket
  pub owners : List SnapshotOwner
  pub processes : List SnapshotProcess
  pub docker : List SnapshotDocker

-- `UnmarshalJSON` of `procPort`, for a port that was 0: a bad value leaves it. `strings.Trim` takes the
-- quotes at both ends, and none stands inside a text that is read.
unfoldable pub unmarshal_port : Str → ℕ
unmarshal_port text = value_or (parse_uint 16 (2 ^ 16 - 1) text) 0

-- `MarshalJSON` of `procPort`, between its quotes.
unfoldable pub marshal_port : ℕ → Str
marshal_port port = format_uint 16 port

unfoldable pub socket_reachable : SnapshotSocket → Str → Str → Bool
socket_reachable socket self v6 =
    let address = to_upper socket.addr in
    if socket.port == 0
    then false
    else if ltb (length proc_v4_loopback) (length address)
    then v6 == b'0' ∷ []
      && (address == proc_v4_mapped || address == proc_v6_wildcard && socket.uid == self)
    else address == proc_v4_loopback || address == proc_v4_wildcard && socket.uid == self

unfoldable pub sanitize_metadata : Str → ℕ → Str
sanitize_metadata value largest =
    if leb (length value) largest
    then value
    else to_valid_utf8 (take largest value) (0xef ∷ 0xbf ∷ 0xbd ∷ [])

-- The loop over the owners: a map of inodes to processes.
unfoldable pub collect_owners : Map ℕ ℕ → List SnapshotOwner → Map ℕ ℕ
collect_owners owners [] = owners
collect_owners owners (o ∷ rest) =
    collect_owners
      (if not (o.inode == 0) && not (o.pid == 0) && value_or (lookup o.inode owners) 0 == 0
        then insert o.inode o.pid owners
        else owners)
      rest

unfoldable pub collect_processes :
    Map ℕ SnapshotProcess → List SnapshotProcess → Map ℕ SnapshotProcess
collect_processes processes [] = processes
collect_processes processes (p ∷ rest) =
    collect_processes
      (if not (p.pid == 0) && (not (p.exe == []) || not (p.cwd == [])) && not (has p.pid processes)
        then insert p.pid p processes
        else processes)
      rest

abbrev pub zero_docker : SnapshotDocker
zero_docker = record { port = 0; service = []; dir = []; name = [] }

unfoldable pub collect_docker : Map ℕ SnapshotDocker → List SnapshotDocker → Map ℕ SnapshotDocker
collect_docker published [] = published
collect_docker published (item ∷ rest) =
    collect_docker
      (if not (item.port == 0) && (value_or (lookup item.port published) zero_docker).port == 0
        then insert item.port item published
        else published)
      rest

-- Whether a socket takes the place of what the map holds for its port.
abbrev pub replaces : SnapshotSocket → Option SnapshotSocket → Bool
replaces socket none = true
replaces socket (some current) = ltb socket.inode current.inode

-- The loop over the sockets: the best reachable one of each port.
unfoldable pub best_sockets :
    Str → Str → Map ℕ SnapshotSocket → List SnapshotSocket → Map ℕ SnapshotSocket
best_sockets self v6 best [] = best
best_sockets self v6 best (socket ∷ rest) =
    best_sockets self v6
      (if socket_reachable socket self v6 && replaces socket (lookup socket.port best)
        then insert socket.port socket best
        else best)
      rest

-- `slice[:n]`, of a slice that may be shorter.
unfoldable pub first_items : {T : Type 0} → ℕ → List T → List T
first_items zero xs = []
first_items (suc n) [] = []
first_items (suc n) (x ∷ xs) = x ∷ first_items n xs

abbrev pub by_socket_port : SnapshotSocket → SnapshotSocket → Ordering
by_socket_port left right = compare left.port right.port

-- The reachable sockets, one of each port, ordered by port, 256 at most.
unfoldable pub reachable_sockets : CapabilitySnapshot → List SnapshotSocket
unfolding best_sockets sort_func first_items
reachable_sockets snapshot =
    first_items max_observed_ports (
      sort_func by_socket_port (values (best_sockets snapshot.uid snapshot.v6 [] snapshot.sockets)))

abbrev pub zero_process : SnapshotProcess
zero_process = record { pid = 0; exe = []; cwd = [] }

-- The app and the directory that a socket's process, or its container, shows.
module _ (snapshot : CapabilitySnapshot) where
  abbrev pub process_of : SnapshotSocket → SnapshotProcess
  process_of socket =
      let pid = value_or (lookup socket.inode (collect_owners [] snapshot.owners)) 0 in
      value_or (lookup pid (collect_processes [] snapshot.processes)) zero_process

  abbrev pub docker_metadata : Option SnapshotDocker → Str × Str
  docker_metadata none = ([], [])
  docker_metadata (some label) =
      (if label.service == [] then trim_prefix label.name (b'/' ∷ []) else label.service, label.dir)

  unfoldable pub metadata : SnapshotSocket → Str × Str
  metadata socket =
      let process = process_of socket in
      let app = if process.exe == [] then [] else path_base process.exe in
      if app == [] && process.cwd == []
      then docker_metadata (lookup socket.port (collect_docker [] snapshot.docker))
      else (app, process.cwd)
