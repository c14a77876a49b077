-- ===== src/App/Processes/Parsed.antt =====
-- What `parseSSHProcess` reads.
use mathlib.Core.List.{append-nil, append_assoc}
use ssh_forward.App.Processes.{
  accept_process, destination, option, parse_argument, parse_arguments, parse_ssh_process,
  replayed_flags,
}
use ssh_forward.App.Targets.{
  HostTarget, check_arguments, check_option, keep_valid_arguments, validate_target,
}
use ssh_forward.App.Targets.Kept.{keep_valid_arguments_lem}
use ssh_forward.Core.Names.{valid_host_name, valid_host_name-has_prefix}
use ssh_forward.Core.Types.{direction_eq, key_eq, state_eq, target_eq}
use ssh_forward.Openssh.Scanner.Round.{kept}
use ssh_forward.Prelude.{
  ==_sym, All, All-contains, Bool, Bool-cases, List, Option-cases, Str, Str-discrete, [], arith,
  bool_eq, bytes, contains, eq_of_==, false, has_prefix, inl, inr, is_some, nat_eq, none, refl,
  some, str_eq, sym, true, ℕ_discrete, ◌++◌, ◌==◌, ◌||◌, ◌∷◌, ◌≡◌,
}

keep_valid_arguments-valid :
    (t : HostTarget)
    → valid_host_name t.target ≡ true
    → validate_target (keep_valid_arguments t).target (keep_valid_arguments t) ≡ none
unfolding keep_valid_arguments
keep_valid_arguments-valid t v = (keep_valid_arguments_lem t v).1

accept_process-valid :
    (t s : HostTarget) (unsupported : Bool)
    → accept_process t unsupported ≡ some s
    → validate_target s.target s ≡ none
unfolding accept_process
accept_process-valid t s unsupported h = elim (Bool-cases (valid_host_name t.target)) [
  | inr invalid ↦ absurd (ground arith)
  | inl v ↦ elim (Bool-cases (unsupported || is_some (validate_target t.target t))) [
    | inl changed ↦
        let same : keep_valid_arguments t ≡ s = ground arith in
        rw (sym same) (keep_valid_arguments-valid t v)
    | inr kept ↦ let same : t ≡ s = ground arith in rw (sym same) (ground arith)
  ]
]

-- A target that parseSSHProcess reads is valid: validateTarget accepts it, so only its supported
-- options are left and its name is a host name.
pub parse_ssh_process-valid :
    (args : List Str) (t : HostTarget)
    → parse_ssh_process args ≡ some t
    → validate_target t.target t ≡ none
unfolding parse_ssh_process
parse_ssh_process-valid [] t h = ground arith
parse_ssh_process-valid (program ∷ args) t h =
    elim (Option-cases
      (parse_arguments (record { target = []; arguments = [] }) false false args)) [
        | inl e ↦ absurd (ground arith)
        | inr (s, e) ↦ accept_process-valid s.0 t s.1 (ground arith)
      ]

parse_arguments-destination :
    (t : HostTarget) (unsupported : Bool) (arg : Str) (rest : List Str)
    → parse_argument arg rest ≡ destination arg
    → parse_arguments t unsupported false (arg ∷ rest)
      ≡ some (record { target = arg; arguments = t.arguments }, unsupported)
unfolding parse_arguments
parse_arguments-destination t unsupported arg rest h = rw (parse_arguments, h) refl

parse_arguments-option :
    (t : HostTarget) (unsupported : Bool) (flag value : Str) (rest : List Str)
    → parse_argument flag (value ∷ rest) ≡ option (flag ∷ value ∷ []) false true
    → parse_arguments t unsupported false (flag ∷ value ∷ rest)
      ≡ parse_arguments
          (record { target = t.target; arguments = t.arguments ++ flag ∷ value ∷ [] })
          (unsupported || false)
          false
          rest
unfolding parse_arguments
parse_arguments-option t unsupported flag value rest h = rw (parse_arguments, h) refl

read_name : (name : Str) → valid_host_name name ≡ true → parse_argument name [] ≡ destination name
unfolding parse_argument has_prefix
read_name name v =
    let plain = valid_host_name-has_prefix name v in
    elim (Bool-cases (name == bytes "--")) [
      | inl dashes ↦ absurd (ground (arith, eq_of_== name (bytes "--")))
      | inr other ↦ rw (other, plain) refl
    ]

read_flags :
    (value : Str) (rest : List Str)
    → All
        (λ flag. parse_argument flag (value ∷ rest) ≡ option (flag ∷ value ∷ []) false true)
        replayed_flags
unfolding parse_argument Str-discrete ℕ_discrete has_prefix contains
read_flags value rest = (refl, (refl, (refl, (refl, (refl, (refl, tt))))))

replayed_of_valid :
    (flag value : Str) → check_option flag value ≡ none → contains replayed_flags flag ≡ true
unfolding check_option contains
replayed_of_valid flag value h = ground (
  arith,
  ==_sym flag (bytes "-p"),
  ==_sym flag (bytes "-F"),
  ==_sym flag (bytes "-i"),
  ==_sym flag (bytes "-l"),
  ==_sym flag (bytes "-J"),
  ==_sym flag (bytes "-o"),
)

read_replayed :
    (flag value : Str) (rest : List Str)
    → check_option flag value ≡ none
    → parse_argument flag (value ∷ rest) ≡ option (flag ∷ value ∷ []) false true
read_replayed flag value rest h =
    All-contains (λ f. parse_argument f (value ∷ rest) ≡ option (f ∷ value ∷ []) false true)
      replayed_flags flag (read_flags value rest) (replayed_of_valid flag value h)

read_arguments :
    (out args : List Str) (name : Str)
    → valid_host_name name ≡ true
    → check_arguments args ≡ none
    → parse_arguments (record { target = []; arguments = out }) false false (args ++ name ∷ [])
      ≡ some (record { target = name; arguments = out ++ args }, false)
unfolding check_arguments
read_arguments out [] name v h =
    rw
      (
        parse_arguments-destination (record { target = []; arguments = out }) false name []
            (read_name name v),
        append-nil out,
      )
      refl
read_arguments out (flag ∷ []) name v h = absurd (ground arith)
read_arguments out (flag ∷ value ∷ rest) name v h =
    let read = read_replayed flag value (rest ++ name ∷ []) (ground arith) in
    rw
      (parse_arguments-option (record { target = []; arguments = out }) false flag value
        (rest ++ name ∷ []) read)
      (rw (← append_assoc out (flag ∷ value ∷ []) rest)
        (read_arguments (out ++ flag ∷ value ∷ []) rest name v (ground arith)))

host_name_of_valid :
    (t : HostTarget)
    → validate_target t.target t ≡ none
    → (valid_host_name t.target ≡ true) × (check_arguments t.arguments ≡ none)
unfolding validate_target
host_name_of_valid t h = (ground arith, ground arith)

accept_process-of_valid :
    (t : HostTarget) → validate_target t.target t ≡ none → accept_process t false ≡ some t
unfolding accept_process
accept_process-of_valid t h = rw ((host_name_of_valid t h).0, h) refl

-- Whatever the program's path, parseSSHProcess reads a valid target back from the command line of its
-- arguments followed by its name.
pub parse_ssh_process-of_valid :
    (program : Str) (t : HostTarget)
    → validate_target t.target t ≡ none
    → parse_ssh_process (program ∷ (t.arguments ++ t.target ∷ [])) ≡ some t
unfolding parse_ssh_process
parse_ssh_process-of_valid program t h =
    let valid = host_name_of_valid t h in
    rw (parse_ssh_process, read_arguments [] t.arguments t.target valid.0 valid.1)
      (accept_process-of_valid t h)
