-- ===== src/View/Format.antt =====
-- The cells of the tables: `cli/internal/statusview/format.go`, and the columns of
-- `cli/internal/statusview/statusview.go` there.
use ssh_forward.Core.Types.{
  DiscoveryState, ForwardState, ForwardStatus, Listener, direction_eq, key_eq, state_eq, target_eq,
}
use ssh_forward.Prelude.{
  Bool, List, Str, [], bool_eq, bytes, false, format_uint, has_prefix, if◌then◌else◌, nat_eq, not,
  split_at, str_eq, ℕ, ◌&&◌, ◌++◌, ◌==◌, ◌||◌, ◌∷◌,
}
use ssh_forward.View.Diagnostics.{or_text}

abbrev pub decimal : ℕ → Str
decimal n = format_uint 10 n

-- The bytes `\x1b` and `\x1b\\`.
abbrev escape : Str
escape = 27 ∷ []

abbrev string_end : Str
string_end = 27 ∷ 92 ∷ []

unfoldable pub local_target : Str → ℕ → Bool → Str
local_target address port hyperlink =
    let target = address ++ bytes ":" ++ decimal port in
    let url = bytes "127.0.0.1:" ++ decimal port in
    if not hyperlink
    then target
    else escape
      ++ bytes "]8;;http://"
      ++ url
      ++ string_end
      ++ target
      ++ escape
      ++ bytes "]8;;"
      ++ string_end

unfoldable pub target_with_preferred : Str → ℕ → ℕ → Bool → Str
unfolding local_target
target_with_preferred address port preferred hyperlink =
    let target = local_target address port hyperlink in
    if not (preferred == 0) && not (preferred == port)
    then target ++ bytes " (preferred " ++ decimal preferred ++ bytes ")"
    else target

unfoldable pub forward_target : ForwardStatus → Bool → Str
unfolding target_with_preferred
forward_target f hyperlink =
    target_with_preferred (bytes "0.0.0.0") f.local_port f.preferred_local_port hyperlink

unfoldable pub published_target : ForwardStatus → Str
unfolding target_with_preferred
published_target f =
    target_with_preferred (bytes "127.0.0.1") f.remote_port f.preferred_remote_port false

abbrev pub green : Str
green = bytes "92"

abbrev pub yellow : Str
yellow = bytes "93"

abbrev pub red : Str
red = bytes "91"

abbrev pub cyan : Str
cyan = bytes "36"

abbrev pub bright_cyan : Str
bright_cyan = bytes "96"

abbrev pub gray : Str
gray = bytes "90"

abbrev pub magenta : Str
magenta = bytes "95"

-- `stateColor` of the two kinds of states, which share their names.
abbrev pub forward_color : ForwardState → Str
forward_color ForwardState.active = green
forward_color ForwardState.failed = red
forward_color _ = yellow

abbrev pub discovery_color : DiscoveryState → Str
discovery_color DiscoveryState.active = green
discovery_color DiscoveryState.failed = red
discovery_color _ = yellow

-- The elements of a path that `path.Clean` keeps, the last one first: `..` takes away the one before
-- it, and is kept at the start of a path that is not rooted.
unfoldable pub clean_elements : Bool → List Str → List Str → List Str
clean_elements rooted kept_ones [] = kept_ones
clean_elements rooted kept_ones (e ∷ rest) =
    let back : List Str = elim kept_ones [
      | [] ↦ if rooted then [] else e ∷ []
      | top ∷ below ↦ if top == bytes ".." then e ∷ top ∷ below else below
    ] in
    clean_elements rooted
      (if e == [] || e == bytes "."
        then kept_ones
        else if e == bytes ".."
        then back
        else e ∷ kept_ones)
      rest

-- `path.Base(path.Clean(directory))`, where `.` and `/` stand for a path without elements; the result
-- of `projectName` is empty for these.
unfoldable pub project_name : Str → Str
unfolding clean_elements
project_name directory =
    elim (clean_elements (has_prefix directory (bytes "/")) [] (split_at b'/' directory)) [
      | [] ↦ []
      | last ∷ before ↦ last
    ]

-- The dash of an empty cell, in UTF-8.
abbrev dash : Str
dash = 226 ∷ 128 ∷ 148 ∷ []

unfoldable pub listener_columns : Listener → Str × Str × Str
unfolding project_name
listener_columns l = (
  or_text (project_name l.working_directory) dash,
  or_text l.app dash,
  or_text l.working_directory dash,
)
