-- ===== src/App/Targets.antt =====
-- Where a manager connects to: the records and the validation of targets of
-- `cli/internal/app/host_target.go`, and the records of `host_registry.go` there.
pub mod Kept
use ssh_forward.Core.Desired.{is_abs}
use ssh_forward.Core.Names.{valid_host_name}
use ssh_forward.Core.Types.{direction_eq, key_eq, state_eq, target_eq}
use ssh_forward.Prelude.{
  Bool, List, Option, Str, [], bool_eq, bytes, contains, cut, false, if◌then◌else◌, is_some, leb,
  ltb, map, nat_eq, none, not, or_else, parse_uint, some, str_eq, to_lower, value_or, ◌&&◌, ◌++◌,
  ◌+◌, ◌-◌, ◌==◌, ◌^◌, ◌||◌, ◌∷◌,
}

pub record HostTarget : Type 0 where
  pub target : Str
  pub arguments : List Str

pub record HostIdentity : Type 0 where
  pub user : Str
  pub hostname : Str

pub record DiscoveredHost : Type 0 where
  pub host_target : HostTarget
  pub identity : Option HostIdentity

-- Why a target is refused.
pub data TargetError : Type 0 where
  invalid_target incomplete_option invalid_option invalid_port : TargetError
  relative_path unsupported_option relative_identity : TargetError

-- `strings.ContainsAny(value, "\n\r\x00")`
breaks_line : Str → Bool
breaks_line [] = false
breaks_line (c ∷ rest) = c == b'\n' || c == b'\r' || c == 0 || breaks_line rest

-- `strconv.Atoi` with a result from 1 to 65535.
unfoldable pub valid_port : Str → Bool
valid_port [] = false
valid_port (c ∷ rest) =
    let digits = if c == b'+' then rest else c ∷ rest in
    ltb 0 (value_or (parse_uint 10 (2 ^ 16 - 1) digits) 0)

-- The keys of `-o` that are replayed.
abbrev pub supported_keys : List Str
supported_keys =
    bytes "user"
    ∷ bytes "port"
    ∷ bytes "hostname"
    ∷ bytes "identityfile"
    ∷ bytes "identitiesonly"
    ∷ bytes "proxyjump"
    ∷ bytes "hostkeyalias"
    ∷ bytes "addressfamily"
    ∷ []

-- `strings.EqualFold` to a text of ASCII letters, none of them a `k` or an `s`, which fold with letters
-- beyond ASCII.
ascii_lower : Str → Str
ascii_lower = map (λ c. if leb b'A' c && leb c b'Z' then c + 32 else c)

check_setting : Option (Str × Str) → Option TargetError
unfolding ascii_lower
check_setting none = some unsupported_option
check_setting (some (setting, path)) =
    if not (contains supported_keys (to_lower setting))
    then some unsupported_option
    else if ascii_lower setting == bytes "identityfile" && not (is_abs path)
    then some relative_identity
    else none

-- The body of the loop of `validateTarget`.
unfoldable pub check_option : Str → Str → Option TargetError
unfolding breaks_line valid_port check_setting
check_option flag value =
    if breaks_line value || value == []
    then some invalid_option
    else if flag == bytes "-p"
    then if valid_port value then none else some invalid_port
    else if flag == bytes "-F" || flag == bytes "-i"
    then if is_abs value then none else some relative_path
    else if flag == bytes "-l" || flag == bytes "-J"
    then none
    else if flag == bytes "-o"
    then check_setting (cut b'=' value)
    else some unsupported_option

-- The loop of `validateTarget`.
unfoldable pub check_arguments : List Str → Option TargetError
check_arguments [] = none
check_arguments (flag ∷ []) = some incomplete_option
check_arguments (flag ∷ value ∷ rest) = or_else (check_option flag value) (check_arguments rest)

unfoldable pub validate_target : Str → HostTarget → Option TargetError
unfolding check_arguments
validate_target name t =
    if not (valid_host_name name) || not (valid_host_name t.target)
    then some invalid_target
    else check_arguments t.arguments

-- The loop of `keepValidArguments`, with the arguments kept so far.
unfoldable pub keep_arguments : Str → List Str → List Str → List Str
keep_arguments name out [] = out
keep_arguments name out (flag ∷ []) = out
keep_arguments name out (flag ∷ value ∷ rest) =
    let next = out ++ flag ∷ value ∷ [] in
    keep_arguments name
      (if is_some (validate_target name (record { target = name; arguments = next }))
        then out
        else next)
      rest

unfoldable pub keep_valid_arguments : HostTarget → HostTarget
unfolding keep_arguments
keep_valid_arguments t = record {
  target = t.target;
  arguments = keep_arguments t.target [] t.arguments;
}
