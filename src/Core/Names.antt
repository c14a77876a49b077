-- ===== src/Core/Names.antt =====
-- Host names, app names and working-directory rules: their validity, and `normalizeRuleNames`, from
-- `cli/internal/core/desired.go` and `cli/internal/core/status.go`.
pub mod Laws
use ssh_forward.Core.Desired.{Doublestar, is_abs}
use ssh_forward.Core.Normalize.{IntentError, invalid_app_name, malformed_pattern, rule_not_absolute}
use ssh_forward.Core.Types.{direction_eq, key_eq, state_eq, target_eq}
use ssh_forward.Prelude.{
  Bool, List, Option, Result, Str, [], arith, bool_eq, compact, contains, err, false, has_prefix,
  if◌then◌else◌, is_plain, leb, length, nat_eq, none, not, ok, or_else, refl, some, sort_func,
  str_compare, str_eq, true, ℕ, ◌&&◌, ◌==◌, ◌||◌, ◌∷◌, ◌≡◌, ◌≤◌,
}

-- `strings.ContainsAny(host, "*?!")`
has_pattern_byte : Str → Bool
has_pattern_byte [] = false
has_pattern_byte (c ∷ rest) = c == b'*' || c == b'?' || c == b'!' || has_pattern_byte rest

starts_with_dash : Str → Bool
starts_with_dash [] = false
starts_with_dash (c ∷ rest) = c == b'-'

abbrev pub max_host_alias_length : ℕ
max_host_alias_length = 255

unfoldable pub valid_host_name : Str → Bool
unfolding has_pattern_byte starts_with_dash
valid_host_name host =
    not (host == [])
    && leb (length host) max_host_alias_length
    && not (starts_with_dash host)
    && not (has_pattern_byte host)
    && is_plain host

pub valid_host_name-length :
    (host : Str) → valid_host_name host ≡ true → length host ≤ max_host_alias_length
unfolding valid_host_name
valid_host_name-length host v = ground arith

-- A host name is never read as a flag.
pub valid_host_name-has_prefix :
    (host : Str) → valid_host_name host ≡ true → has_prefix host (b'-' ∷ []) ≡ false
unfolding valid_host_name starts_with_dash has_prefix
valid_host_name-has_prefix [] v = refl
valid_host_name-has_prefix (c ∷ rest) v = ground arith

unfoldable pub valid_app_name : Str → Bool
valid_app_name name =
    not (name == []) && leb (length name) 255 && not (contains name b'/') && is_plain name

unfoldable pub valid_ignored_app : Str → Option IntentError
valid_ignored_app name = if valid_app_name name then none else some IntentError.invalid_app_name

unfoldable pub valid_working_directory_rule : Doublestar → Str → Option IntentError
valid_working_directory_rule glob rule =
    if not (is_abs rule)
    then some IntentError.rule_not_absolute
    else if not (glob.validate_pattern rule)
    then some IntentError.malformed_pattern
    else none

module _ (valid : Str → Option IntentError) where
  -- The loop of `normalizeRuleNames`: the error of the first value that is not valid.
  unfoldable pub first_invalid : List Str → Option IntentError
  first_invalid [] = none
  first_invalid (value ∷ rest) = or_else (valid value) (first_invalid rest)

  unfoldable pub normalize_rule_names : List Str → Result IntentError (List Str)
  unfolding first_invalid sort_func compact
  normalize_rule_names [] = ok []
  normalize_rule_names (value ∷ rest) = elim (first_invalid (value ∷ rest)) [
    | some e ↦ err e
    | none ↦ ok (compact (sort_func str_compare (value ∷ rest)))
  ]

unfoldable pub normalize_ignored_apps : List Str → Result IntentError (List Str)
unfolding normalize_rule_names valid_ignored_app
normalize_ignored_apps = normalize_rule_names valid_ignored_app

unfoldable pub normalize_working_directory_rules :
    Doublestar → List Str → Result IntentError (List Str)
unfolding normalize_rule_names valid_working_directory_rule
normalize_working_directory_rules glob = normalize_rule_names (valid_working_directory_rule glob)
