-- ===== src/App/Processes.antt =====
-- The arguments of a running `ssh` process: `parseSSHProcess` of `cli/internal/app/host_target.go`.
pub mod Parsed
use ssh_forward.App.Targets.{HostTarget, keep_valid_arguments, validate_target}
use ssh_forward.Core.Names.{valid_host_name}
use ssh_forward.Core.Types.{direction_eq, key_eq, state_eq, target_eq}
use ssh_forward.Prelude.{
  Bool, List, Option, Str, [], bool_eq, bytes, contains, false, has_prefix, if◌then◌else◌, is_some,
  nat_eq, none, not, some, str_eq, true, ◌&&◌, ◌++◌, ◌==◌, ◌||◌, ◌∷◌,
}

-- `strings.Trim`
trim_start : Str → Str → Str
trim_start [] set = []
trim_start (c ∷ s) set = let rest = trim_start s set in if contains set c then rest else c ∷ s

trim_end : Str → Str → Str
trim_end [] set = []
trim_end (c ∷ s) set = elim (trim_end s set) [
  | [] ↦ if contains set c then [] else c ∷ []
  | d ∷ rest ↦ c ∷ d ∷ rest
]

unfoldable pub trim : Str → Str → Str
unfolding trim_start trim_end
trim s set = trim_end (trim_start s set) set

-- What one argument does: it refuses the process, names the destination, or adds arguments to replay,
-- may be unsupported, and may use up the argument that follows.
pub data ArgumentStep : Type 0 where
  refuse : ArgumentStep
  destination : Str → ArgumentStep
  option : List Str → Bool → Bool → ArgumentStep

abbrev pub flags_with_value : Str
flags_with_value = bytes "pFilJoLRDWSEbwcm"

abbrev pub plain_flags : Str
plain_flags = bytes "1246AaCfgKkMNnqsTtVvXxYy"

abbrev pub replayed_flags : List Str
replayed_flags = bytes "-p" ∷ bytes "-F" ∷ bytes "-i" ∷ bytes "-l" ∷ bytes "-J" ∷ bytes "-o" ∷ []

abbrev pub forward_flags : List Str
forward_flags = bytes "-L" ∷ bytes "-R" ∷ bytes "-D" ∷ []

abbrev pub refused_flags : List Str
refused_flags = bytes "-G" ∷ bytes "-O" ∷ bytes "-V" ∷ bytes "-Q" ∷ []

parse_value : Str → Str → Bool → ArgumentStep
parse_value flag value next =
    if flag == bytes "-S" && has_prefix value (bytes "master-")
    then refuse
    else if contains replayed_flags flag
    then option (flag ∷ value ∷ []) false next
    else option [] (not (contains forward_flags flag)) next

-- The value of a flag is the rest of the argument, or else the next argument.
parse_flag : Str → Str → List Str → ArgumentStep
unfolding parse_value
parse_flag flag [] [] = refuse
parse_flag flag [] (next ∷ rest) = parse_value flag next true
parse_flag flag (c ∷ value) rest = parse_value flag (c ∷ value) false

parse_option : Str → List Str → ArgumentStep
unfolding parse_flag trim
parse_option [] rest = refuse
parse_option (dash ∷ []) rest = refuse
parse_option (dash ∷ c ∷ value) rest =
    if contains flags_with_value c
    then parse_flag (dash ∷ c ∷ []) value rest
    else option [] (not (trim (c ∷ value) plain_flags == [])) false

-- The body of the loop, with the arguments that follow.
unfoldable pub parse_argument : Str → List Str → ArgumentStep
unfolding parse_option
parse_argument arg rest =
    if arg == bytes "--"
    then elim rest [ [] ↦ refuse | next ∷ _ ↦ destination next ]
    else if not (has_prefix arg (bytes "-"))
    then destination arg
    else if arg == bytes "-4"
    then option (bytes "-o" ∷ bytes "AddressFamily=inet" ∷ []) false false
    else if arg == bytes "-6"
    then option (bytes "-o" ∷ bytes "AddressFamily=inet6" ∷ []) false false
    else if contains refused_flags arg
    then refuse
    else parse_option arg rest

-- The loop: the target and the flag `unsupported` so far, and whether the next argument is used up.
unfoldable pub parse_arguments : HostTarget → Bool → Bool → List Str → Option (HostTarget × Bool)
unfolding parse_argument
parse_arguments t unsupported next [] = some (t, unsupported)
parse_arguments t unsupported true (arg ∷ rest) = parse_arguments t unsupported false rest
parse_arguments t unsupported false (arg ∷ rest) = elim (parse_argument arg rest) [
  | refuse ↦ none
  | destination name ↦ some (record { target = name; arguments = t.arguments }, unsupported)
  | option more unread next ↦
      parse_arguments (record { target = t.target; arguments = t.arguments ++ more })
        (unsupported || unread) next rest
]

-- What follows the loop.
unfoldable pub accept_process : HostTarget → Bool → Option HostTarget
accept_process t unsupported =
    if not (valid_host_name t.target)
    then none
    else some
        (if unsupported || is_some (validate_target t.target t) then keep_valid_arguments t else t)

unfoldable pub parse_ssh_process : List Str → Option HostTarget
unfolding parse_arguments accept_process
parse_ssh_process [] = none
parse_ssh_process (program ∷ args) =
    elim (parse_arguments (record { target = []; arguments = [] }) false false args) [
      | none ↦ none
      | some (t, unsupported) ↦ accept_process t unsupported
    ]
