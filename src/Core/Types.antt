-- ===== src/Core/Types.antt =====
-- The data of `cli/internal/core/status.go` and of the head of `cli/internal/core/desired.go`.
-- A string is the list of its bytes. A value of Go's string types `ForwardDirection`, `ForwardState`
-- and `DiscoveryState` is one of the declared constants, or `unset`, the zero value.
use ssh_forward.Prelude.{
  Bool, Eq, List, Option, Str, [], bytes, false, if◌then◌else◌, nat_eq, none, some, str_eq, true, ℕ,
  ℕ_discrete, ◌==◌,
}

pub data ForwardDirection : Type 0 where
  unset remote_to_local local_to_remote : ForwardDirection

pub data ForwardState : Type 0 where
  unset starting active failed : ForwardState

pub data DiscoveryState : Type 0 where
  unset connecting active failed : DiscoveryState

unfoldable pub ForwardDirection-discrete : Discrete ForwardDirection
ForwardDirection-discrete = hlevel

unfoldable pub ForwardState-discrete : Discrete ForwardState
ForwardState-discrete = hlevel

instance abbrev pub direction_eq : Eq ForwardDirection
direction_eq = record { dec = ForwardDirection-discrete }

instance abbrev pub state_eq : Eq ForwardState
state_eq = record { dec = ForwardState-discrete }

pub record DiscoveryStatus : Type 0 where
  pub state : DiscoveryState
  pub diagnostic : Str

pub record ForwardStatus : Type 0 where
  pub direction : ForwardDirection
  pub remote_port : ℕ
  pub preferred_remote_port : ℕ
  pub preferred_local_port : ℕ
  pub local_port : ℕ
  pub state : ForwardState
  pub diagnostic : Str
  pub automatic : Bool
  pub allow_fallback : Bool

-- What a Go map of statuses returns for a missing key.
abbrev pub zero_status : ForwardStatus
zero_status = record {
  direction = ForwardDirection.unset;
  remote_port = 0;
  preferred_remote_port = 0;
  preferred_local_port = 0;
  local_port = 0;
  state = ForwardState.unset;
  diagnostic = [];
  automatic = false;
  allow_fallback = false;
}

pub record Listener : Type 0 where
  pub port : ℕ
  pub app : Str
  pub working_directory : Str

pub record RememberedForward : Type 0 where
  pub remote_port : ℕ
  pub local_port : ℕ
  pub allow_fallback : Bool

pub record PublishedForward : Type 0 where
  pub local_port : ℕ
  pub remote_port : ℕ

-- `RememberedForward.WithDefaults`
unfoldable pub remembered_with_defaults : RememberedForward → RememberedForward
remembered_with_defaults f =
    if f.local_port == 0 then record f { local_port = f.remote_port; allow_fallback = true } else f

-- `PublishedForward.WithDefaults`; `cmp.Or` takes the first value that is not zero.
unfoldable pub published_with_defaults : PublishedForward → PublishedForward
published_with_defaults f = record f {
  remote_port = if f.remote_port == 0 then f.local_port else f.remote_port;
}

pub record ForwardTarget : Type 0 where
  pub direction : ForwardDirection
  pub remote_port : ℕ
  pub local_port : ℕ

pub record ForwardingIntent : Type 0 where
  pub auto_forwards : List RememberedForward
  pub reserved_local_ports : List ℕ
  pub remembered_forwards : List RememberedForward
  pub published_forwards : List PublishedForward
  pub working_directory_rules : List Str
  pub ignored_apps : List Str

pub record Status : Type 0 where
  pub host : Str
  pub discovery : DiscoveryStatus
  pub listeners : List Listener
  pub forwards : List ForwardStatus
  pub working_directory_rules : List Str
  pub ignored_apps : List Str

-- An error, with the errors that it wraps. `backend` is `*BackendError`.
pub data Error : Type 0 where
  backend : Str → Error
  wrap : Str → Error → Error
  message : Str → Error
  canceled : Error

pub record ForwardKey : Type 0 where
  pub direction : ForwardDirection
  pub service_port : ℕ

unfoldable pub ForwardKey-discrete : Discrete ForwardKey
ForwardKey-discrete = hlevel (ForwardDirection-discrete, ℕ_discrete)

instance abbrev pub key_eq : Eq ForwardKey
key_eq = record { dec = ForwardKey-discrete }

unfoldable pub ForwardTarget-discrete : Discrete ForwardTarget
ForwardTarget-discrete = hlevel (ForwardDirection-discrete, ℕ_discrete)

instance abbrev pub target_eq : Eq ForwardTarget
target_eq = record { dec = ForwardTarget-discrete }

pub record DesiredForward : Type 0 where
  pub preferred : ForwardTarget
  pub automatic : Bool
  pub allow_fallback : Bool

unfoldable pub key_for : ForwardDirection → ℕ → ℕ → ForwardKey
key_for direction local remote =
    if direction == ForwardDirection.local_to_remote
    then record { direction = direction; service_port = local }
    else record { direction = direction; service_port = remote }

unfoldable pub key : DesiredForward → ForwardKey
unfolding key_for
key forward =
    key_for forward.preferred.direction forward.preferred.local_port forward.preferred.remote_port

-- The outermost `*BackendError` of the chain decides.
unfoldable pub find_backend : Error → Option Str
find_backend (Error.backend d) = some d
find_backend (Error.wrap s e) = find_backend e
find_backend (Error.message s) = none
find_backend Error.canceled = none

abbrev pub transport_unavailable : Str
transport_unavailable = bytes "transport_unavailable"

unfoldable pub error_diagnostic : Option Error → Str
unfolding find_backend
error_diagnostic none = transport_unavailable
error_diagnostic (some e) = elim (find_backend e) [
  | none ↦ transport_unavailable
  | some d ↦ if d == [] then transport_unavailable else d
]
