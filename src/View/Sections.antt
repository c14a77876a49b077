-- ===== src/View/Sections.antt =====
-- What each section of the status shows: `cli/internal/statusview/statusview.go`.
use ssh_forward.Core.Types.{
  ForwardDirection, ForwardState, ForwardStatus, Listener, Status, direction_eq, key_eq, state_eq,
  target_eq,
}
use ssh_forward.Prelude.{
  Bool, List, Map, Str, [], bool_eq, bytes, contains, false, if◌then◌else◌, insert, lookup, map,
  nat_eq, not, str_eq, true, value_or, ℕ, ◌&&◌, ◌++◌, ◌==◌, ◌||◌, ◌∷◌,
}
use ssh_forward.View.Diagnostics.{text_of}
use ssh_forward.View.Format.{
  bright_cyan, decimal, forward_color, forward_target, listener_columns, published_target,
}

-- The arguments of `renderSection` but for the options.
pub record Section : Type 0 where
  pub title : Str
  pub headers : List Str
  pub rows : List (List Str)
  pub accent : Str

abbrev pub is_published : ForwardStatus → Bool
is_published f = f.direction == ForwardDirection.local_to_remote

-- `ignoredListener`
abbrev pub ignored_listener : List Str → Listener → Bool
ignored_listener ignored l = not (l.app == []) && contains ignored l.app

-- `hidesAvailableListener`
abbrev pub hides_available_listener : ForwardStatus → Bool
hides_available_listener f = not (is_published f) || f.state == ForwardState.active

-- The loop that builds `listenersByPort`.
unfoldable pub listeners_by_port : Map ℕ Listener → List Listener → Map ℕ Listener
listeners_by_port m [] = m
listeners_by_port m (l ∷ rest) = listeners_by_port (insert l.port l m) rest

-- The keys of `forwardedPorts`.
unfoldable pub forwarded_ports : List ForwardStatus → List ℕ
forwarded_ports [] = []
forwarded_ports (f ∷ rest) =
    let later = forwarded_ports rest in
    if hides_available_listener f then f.remote_port ∷ later else later

-- The loop that collects the rows of one section.
unfoldable pub section_forwards : ForwardState → Bool → List ForwardStatus → List ForwardStatus
section_forwards state published [] = []
section_forwards state published (f ∷ rest) =
    let later = section_forwards state published rest in
    if f.state == state && is_published f == published then f ∷ later else later

-- The loop that collects `available`.
unfoldable pub available_listeners : List ℕ → List Str → List Listener → List Listener
available_listeners forwarded ignored [] = []
available_listeners forwarded ignored (l ∷ rest) =
    let later = available_listeners forwarded ignored rest in
    if not (contains forwarded l.port) && not (ignored_listener ignored l) then l ∷ later else later

abbrev title_of : Bool → ForwardState → Str
title_of true ForwardState.active = bytes "PUBLISHED"
title_of true ForwardState.starting = bytes "PUBLISHING"
title_of true ForwardState.failed = bytes "PUBLISH NEEDS ATTENTION"
title_of false ForwardState.active = bytes "FORWARDS"
title_of false ForwardState.starting = bytes "STARTING"
title_of false ForwardState.failed = bytes "NEEDS ATTENTION"
title_of published ForwardState.unset = []

abbrev headers_of : Bool → Bool → List Str
headers_of true true = bytes "LOCAL" ∷ bytes "REMOTE TARGET" ∷ bytes "KIND" ∷ bytes "ISSUE" ∷ []
headers_of true false = bytes "LOCAL" ∷ bytes "REMOTE TARGET" ∷ bytes "KIND" ∷ []
headers_of false true = bytes "REMOTE" ∷ bytes "TARGET" ∷ bytes "KIND" ∷ bytes "ISSUE" ∷ []
headers_of false false =
    bytes "PROJECT"
    ∷ bytes "REMOTE"
    ∷ bytes "TARGET"
    ∷ bytes "KIND"
    ∷ bytes "APP"
    ∷ bytes "WORKING DIRECTORY"
    ∷ []

-- `forwardKind`
abbrev forward_kind : ForwardStatus → Str
forward_kind f = if f.automatic then bytes "automatic" else bytes "remembered"

abbrev zero_listener : Listener
zero_listener = record { port = 0; app = []; working_directory = [] }

-- The row of one forward; `failed_state` says that the section is of the failed state.
unfoldable pub forward_row : Map ℕ Listener → Bool → Bool → Bool → ForwardStatus → List Str
unfolding forward_target published_target listener_columns text_of
forward_row listeners published failed_state hyperlink f =
    let row =
      if published
      then decimal f.local_port ∷ published_target f ∷ bytes "published" ∷ []
      else decimal f.remote_port ∷ forward_target f hyperlink ∷ forward_kind f ∷ [] in
    let (project, app, directory) =
      listener_columns (value_or (lookup f.remote_port listeners) zero_listener) in
    if failed_state
    then row ++ text_of f.diagnostic ∷ []
    else if not published
    then project ∷ (row ++ app ∷ directory ∷ [])
    else row

-- `renderForwardSection`, up to `renderSection`.
unfoldable pub forward_section :
    Bool → Map ℕ Listener → ForwardState → Bool → List ForwardStatus → Section
unfolding forward_row
forward_section hyperlinks listeners state published forwards = record {
  title = title_of published state;
  headers = headers_of published (state == ForwardState.failed);
  rows =
      map
        (forward_row listeners published (state == ForwardState.failed)
          (hyperlinks && state == ForwardState.active))
        forwards;
  accent = forward_color state;
}

abbrev pub available_row : Listener → List Str
available_row l =
    let (project, app, directory) = listener_columns l in
    project ∷ decimal l.port ∷ app ∷ directory ∷ []

-- `renderAvailable`, up to `renderSection`.
unfoldable pub available_section : List Listener → Section
unfolding listener_columns
available_section listeners = record {
  title = bytes "AVAILABLE";
  headers = bytes "PROJECT" ∷ bytes "PORT" ∷ bytes "APP" ∷ bytes "WORKING DIRECTORY" ∷ [];
  rows = map available_row listeners;
  accent = bright_cyan;
}

-- The states and the directions in the order of the two loops.
abbrev pub shown_kinds : List (ForwardState × Bool)
shown_kinds =
    (ForwardState.active, false)
    ∷ (ForwardState.active, true)
    ∷ (ForwardState.starting, false)
    ∷ (ForwardState.starting, true)
    ∷ (ForwardState.failed, false)
    ∷ (ForwardState.failed, true)
    ∷ []

unfoldable pub forward_sections :
    Bool → Map ℕ Listener → List ForwardStatus → List (ForwardState × Bool) → List Section
unfolding section_forwards forward_section
forward_sections hyperlinks listeners forwards [] = []
forward_sections hyperlinks listeners forwards ((state, published) ∷ rest) =
    let later = forward_sections hyperlinks listeners forwards rest in
    elim (section_forwards state published forwards) [
      | [] ↦ later
      | f ∷ fs ↦ forward_section hyperlinks listeners state published (f ∷ fs) ∷ later
    ]

-- The listeners of the section of these.
abbrev pub available_of : Status → List Listener
available_of s = available_listeners (forwarded_ports s.forwards) s.ignored_apps s.listeners

-- The tables of `Render`, in order.
unfoldable pub tables : Bool → Status → List Section
unfolding forward_sections listeners_by_port forwarded_ports available_listeners available_section
tables hyperlinks s =
    let shown =
      forward_sections hyperlinks (listeners_by_port [] s.listeners) s.forwards shown_kinds in
    elim (available_of s) [ [] ↦ shown | l ∷ ls ↦ shown ++ available_section (l ∷ ls) ∷ [] ]
