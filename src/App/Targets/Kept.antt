-- ===== src/App/Targets/Kept.antt =====
-- What `keepValidArguments` keeps.
use mathlib.Core.List.{append-nil, append_assoc}
use ssh_forward.App.Targets.{
  HostTarget, check_arguments, check_option, keep_arguments, keep_valid_arguments, validate_target,
}
use ssh_forward.Core.Names.{valid_host_name}
use ssh_forward.Core.Types.{direction_eq, key_eq, state_eq, target_eq}
use ssh_forward.Prelude.{
  Bool-cases, List, Str, [], arith, bool_eq, if◌then◌else◌, inl, inr, is_some, nat_eq, none, refl,
  str_eq, sym, true, ◌++◌, ◌∙◌, ◌∷◌, ◌≡◌,
}

-- The options that are replayed, each with its value.
unfoldable pub valid_options : List Str → List Str
valid_options [] = []
valid_options (flag ∷ []) = []
valid_options (flag ∷ value ∷ rest) =
    let later = valid_options rest in
    if is_some (check_option flag value) then later else flag ∷ value ∷ later

check_arguments-append :
    (out : List Str) (flag value : Str)
    → check_arguments out ≡ none
    → check_arguments (out ++ flag ∷ value ∷ []) ≡ check_option flag value
unfolding check_arguments
check_arguments-append [] flag value h = ground arith
check_arguments-append (a ∷ []) flag value h = absurd (ground arith)
check_arguments-append (a ∷ b ∷ out) flag value h =
    ground (arith, check_arguments-append out flag value)

-- A target that one more option is added to is valid as the option is.
validate-next :
    (name : Str) (out : List Str) (flag value : Str)
    → valid_host_name name ≡ true
    → check_arguments out ≡ none
    → validate_target name (record { target = name; arguments = out ++ flag ∷ value ∷ [] })
      ≡ check_option flag value
unfolding validate_target
validate-next name out flag value v h = ground (arith, check_arguments-append out flag value h)

keep_arguments-eq :
    (name : Str) (out arguments : List Str)
    → valid_host_name name ≡ true
    → check_arguments out ≡ none
    → (keep_arguments name out arguments ≡ out ++ valid_options arguments)
unfolding keep_arguments valid_options
keep_arguments-eq name out [] v h = sym (append-nil out)
keep_arguments-eq name out (flag ∷ []) v h = sym (append-nil out)
keep_arguments-eq name out (flag ∷ value ∷ rest) v h =
    rw (validate-next name out flag value v h)
      elim (Bool-cases (is_some (check_option flag value))) [
        | inl refused ↦ rw refused (keep_arguments-eq name out rest v h)
        | inr good ↦
            let valid = check_arguments-append out flag value h in
            rw good (
              keep_arguments-eq name (out ++ flag ∷ value ∷ []) rest v (ground arith)
              ∙ append_assoc out (flag ∷ value ∷ []) (valid_options rest))
      ]

check_valid_options : (arguments : List Str) → check_arguments (valid_options arguments) ≡ none
unfolding check_arguments valid_options
check_valid_options [] = refl
check_valid_options (flag ∷ []) = refl
check_valid_options (flag ∷ value ∷ rest) = ground (arith, check_valid_options rest)

valid_options_of_valid :
    (arguments : List Str) → check_arguments arguments ≡ none → valid_options arguments ≡ arguments
unfolding check_arguments valid_options
valid_options_of_valid [] h = refl
valid_options_of_valid (flag ∷ []) h = absurd (ground arith)
valid_options_of_valid (flag ∷ value ∷ rest) h = ground (arith, valid_options_of_valid rest)

-- For a target whose name is a host name, keepValidArguments keeps this name and exactly the
-- options that validateTarget accepts one by one, each with its value, in their order; the result is
-- then a valid target, and a valid target is left as it is.
pub keep_valid_arguments_lem :
    (t : HostTarget)
    → valid_host_name t.target ≡ true
    → (keep_valid_arguments t ≡ record { target = t.target; arguments = valid_options t.arguments })
      × (validate_target t.target (keep_valid_arguments t) ≡ none)
      × (validate_target t.target t ≡ none → keep_valid_arguments t ≡ t)
unfolding keep_valid_arguments validate_target
keep_valid_arguments_lem t v =
    let same = keep_arguments-eq t.target [] t.arguments v refl in
    let valid = check_valid_options t.arguments in
    (
      rw same refl,
      rw (same, v, valid) refl,
      λ h. rw (same, valid_options_of_valid t.arguments (ground arith)) refl,
    )
