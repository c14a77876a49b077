-- ===== src/Core/Desired.antt =====
-- Which forwards are wanted: `buildDesiredForwards` of `cli/internal/core/desired.go` and its
-- helpers. `Doublestar` stands for the package `github.com/bmatcuk/doublestar/v4`.
pub mod Selection
pub mod Keyed
use ssh_forward.Core.Types.{
  DesiredForward, ForwardDirection, ForwardKey, ForwardState, ForwardStatus, ForwardTarget,
  Listener, PublishedForward, RememberedForward, direction_eq, key, key_eq, local_to_remote,
  remote_to_local, state_eq, target_eq,
}
use ssh_forward.Prelude.{
  Bool, List, Map, Option, Str, [], contains, false, has, if◌then◌else◌, insert, lookup, map,
  nat_eq, none, not, some, str_eq, true, ℕ, ◌&&◌, ◌++◌, ◌==◌, ◌||◌, ◌∷◌,
}

-- `Match`, where `none` is `ErrBadPattern`, and `ValidatePattern`.
pub record Doublestar : Type 0 where
  pub glob_match : Str → Str → Option Bool
  pub validate_pattern : Str → Bool

-- `path.IsAbs`
unfoldable pub is_abs : Str → Bool
is_abs [] = false
is_abs (c ∷ rest) = c == b'/'

unfoldable pub app_ignored : List Str → Str → Bool
app_ignored ignored app = not (app == []) && contains ignored app

unfoldable pub desired_remembered_forward : RememberedForward → DesiredForward
desired_remembered_forward forward = record {
  preferred = record {
    direction = ForwardDirection.remote_to_local;
    remote_port = forward.remote_port;
    local_port = forward.local_port;
  };
  automatic = false;
  allow_fallback = forward.allow_fallback;
}

unfoldable pub desired_automatic_forward : ℕ → DesiredForward
desired_automatic_forward port = record {
  preferred = record {
    direction = ForwardDirection.remote_to_local;
    remote_port = port;
    local_port = port;
  };
  automatic = true;
  allow_fallback = true;
}

unfoldable pub desired_published_forward : PublishedForward → DesiredForward
desired_published_forward forward = record {
  preferred = record {
    direction = ForwardDirection.local_to_remote;
    remote_port = forward.remote_port;
    local_port = forward.local_port;
  };
  automatic = false;
  allow_fallback = false;
}

unfoldable pub forward_status : DesiredForward → ForwardState → Str → ForwardTarget → ForwardStatus
forward_status desired state diagnostic target =
    if desired.preferred.direction == ForwardDirection.local_to_remote
    then record {
      direction = desired.preferred.direction;
      remote_port = target.remote_port;
      preferred_remote_port = desired.preferred.remote_port;
      preferred_local_port = 0;
      local_port = desired.preferred.local_port;
      state = state;
      diagnostic = diagnostic;
      automatic = desired.automatic;
      allow_fallback = desired.allow_fallback;
    }
    else record {
      direction = desired.preferred.direction;
      remote_port = desired.preferred.remote_port;
      preferred_remote_port = 0;
      preferred_local_port = desired.preferred.local_port;
      local_port = target.local_port;
      state = state;
      diagnostic = diagnostic;
      automatic = desired.automatic;
      allow_fallback = desired.allow_fallback;
    }

-- The set of reserved ports: those of the publications, then the additional ones.
unfoldable pub reserved_local_ports : List PublishedForward → List ℕ → List ℕ
reserved_local_ports forwards additional =
    map (λ (f : PublishedForward). f.local_port) forwards ++ additional

abbrev pub DesiredMap : Type 0
DesiredMap = Map ForwardKey DesiredForward

-- The loop over `remembered`.
unfoldable pub add_remembered : DesiredMap → List RememberedForward → DesiredMap
add_remembered desired [] = desired
add_remembered desired (forward ∷ rest) =
    let item = desired_remembered_forward forward in
    add_remembered (insert (key item) item desired) rest

-- The loop over `published`; `publishedRemotePorts` is the list of their remote ports.
unfoldable pub add_published : DesiredMap → List PublishedForward → DesiredMap
add_published desired [] = desired
add_published desired (forward ∷ rest) =
    let item = desired_published_forward forward in
    add_published (insert (key item) item desired) rest

-- The loop over `autoForwards`: the first rule of a port wins.
unfoldable pub auto_candidates :
    Map ℕ DesiredForward → List RememberedForward → Map ℕ DesiredForward
auto_candidates automatic [] = automatic
auto_candidates automatic (forward ∷ rest) =
    auto_candidates
      (if has forward.remote_port automatic
        then automatic
        else insert forward.remote_port (desired_remembered_forward forward) automatic)
      rest

-- The loop over the listeners, once a candidate is chosen.
unfoldable pub select_candidate : List ℕ → ℕ → Option DesiredForward → DesiredMap → DesiredMap
select_candidate published_remote_ports port none desired = desired
select_candidate published_remote_ports port (some candidate) desired =
    if not (has (key candidate) desired) && not (contains published_remote_ports port)
    then insert (key candidate) (record candidate { automatic = true }) desired
    else desired

module _ (glob : Doublestar) where
  any_pattern : List Str → Str → Bool
  any_pattern [] directory = false
  any_pattern (pattern' ∷ rest) directory = elim (glob.glob_match pattern' directory) [
    | some true ↦ true
    | _ ↦ any_pattern rest directory
  ]

  unfoldable pub matches_working_directory : List Str → Str → Bool
  unfolding any_pattern is_abs
  matches_working_directory patterns directory =
      if directory == [] || not (is_abs directory) then false else any_pattern patterns directory

  -- The body of the loop over the listeners, up to the choice of a candidate; `none` is `continue`.
  unfoldable pub candidate_for :
      Map ℕ DesiredForward → List Str → List Str → ℕ → Listener → Option DesiredForward
  candidate_for automatic rules ignored port listener =
      if app_ignored ignored listener.app then none else elim (lookup port automatic) [
        | some candidate ↦ some candidate
        | none ↦
            if matches_working_directory rules listener.working_directory
            then some (desired_automatic_forward port)
            else none
      ]

  unfoldable pub add_listeners :
      Map ℕ DesiredForward → List Str → List Str → List ℕ → Map ℕ Listener → DesiredMap → DesiredMap
  unfolding candidate_for select_candidate
  add_listeners automatic rules ignored published [] desired = desired
  add_listeners automatic rules ignored published ((port, listener) ∷ rest) desired =
      add_listeners automatic rules ignored published rest (
        select_candidate published port (candidate_for automatic rules ignored port listener)
          desired)

  unfoldable pub build_desired_forwards :
      List RememberedForward
      → List PublishedForward
      → Map ℕ Listener
      → List Str
      → List Str
      → List RememberedForward
      → DesiredMap
  build_desired_forwards remembered published listeners rules ignored autos =
      add_listeners (auto_candidates [] autos) rules ignored
        (map (λ (f : PublishedForward). f.remote_port) published) listeners
        (add_published (add_remembered [] remembered) published)
