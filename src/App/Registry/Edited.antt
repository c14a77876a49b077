-- ===== src/App/Registry/Edited.antt =====
-- What `EditHost` changes.
use ssh_forward.App.Registry.{change_host, edit_host, named_target, without}
use ssh_forward.App.Targets.{HostTarget, validate_target}
use ssh_forward.App.Wire.{Configuration}
use ssh_forward.Core.Names.{valid_host_name}
use ssh_forward.Core.Types.{direction_eq, key_eq, state_eq, target_eq}
use ssh_forward.Prelude.{
  Bool, Bool-cases, List, Str, [], arith, bool_eq, contains, contains-append, contains-sorted,
  false, if◌then◌else◌, inl, inr, lookup, lookup-insert, nat_eq, none, not, ok, refl, some,
  str_compare, str_eq, true, ◌&&◌, ◌++◌, ◌==◌, ◌∙◌, ◌∷◌, ◌≡◌,
}

contains-without :
    (name : Str) (xs : List Str) (k : Str)
    → contains (without name xs) k ≡ (contains xs k && not (name == k))
unfolding contains without
contains-without name [] k = refl
contains-without name (x ∷ xs) k = ground (arith, contains-without name xs k)

ignores_after :
    (name : Str) (xs : List Str) (ignore : Bool) (k : Str)
    → contains (if ignore then without name xs ++ name ∷ [] else without name xs) k
      ≡ (if name == k then ignore else contains xs k)
unfolding contains
ignores_after name xs true k =
    ground (arith, contains-append (without name xs) (name ∷ []) k, contains-without name xs k)
ignores_after name xs false k = ground (arith, contains-without name xs k)

-- For a valid host name, and a target that is valid once it has the host's name where it has none,
-- EditHost succeeds: the name is ignored afterwards exactly if this is asked for, the target is stored
-- under it, and without a target its settings stay; every other name is as before, and so are the
-- rules.
pub edit_host_lem :
    (name : Str) (t : HostTarget) (given ignore : Bool) (config : Configuration)
    → valid_host_name name ≡ true
    → validate_target name (named_target name t) ≡ none
    → (out : Configuration) × (edit_host name (if given then some t else none) ignore config
        ≡ ok out)
      × ((k : Str)
          → contains out.ignored_hosts k
            ≡ (if name == k then ignore else contains config.ignored_hosts k))
      × ((k : Str)
          → lookup k out.hosts
            ≡ (if given && name == k then some (named_target name t) else lookup k config.hosts))
      × (out.rules ≡ config.rules)
unfolding edit_host change_host
edit_host_lem name t given ignore config v w =
    let stored = if given then some (named_target name t) else none in
    let kept_hosts = without name config.ignored_hosts in
    let ignored = λ (k : Str).
      contains-sorted str_compare (if ignore then kept_hosts ++ name ∷ [] else kept_hosts) k
      ∙ ignores_after name config.ignored_hosts ignore k in
    elim (Bool-cases given) [
      | inl present ↦ (
        change_host name stored ignore config,
        rw (present, v, w) refl,
        ignored,
        λ k. rw present (lookup-insert name k (named_target name t) config.hosts),
        refl,
      )
      | inr absent ↦ (
        change_host name stored ignore config,
        rw (absent, v) refl,
        ignored,
        λ k. rw absent refl,
        refl,
      )
    ]
