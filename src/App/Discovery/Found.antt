-- ===== src/App/Discovery/Found.antt =====
-- The targets that `discoverProcesses` returns.
use mathlib.Core.Path.{subst}
use ssh_forward.App.Discovery.{
  HostProcess, discover_processes, excluded_processes, find_targets, is_skipped, process_target,
  put_target,
}
use ssh_forward.App.Discovery.Closure.{excluded_processes_lem}
use ssh_forward.App.Processes.{parse_ssh_process}
use ssh_forward.App.Processes.Parsed.{parse_ssh_process-valid}
use ssh_forward.App.TargetId.{target_id}
use ssh_forward.App.Targets.{HostTarget, validate_target}
use ssh_forward.Core.Types.{direction_eq, key, key_eq, state_eq, target_eq}
use ssh_forward.Prelude.{
  ==_refl, Bool-cases, List, Map, Option, Option-cases, Str, [], arith, bool_eq, bytes, contains,
  eq_of_==, false, has, if◌then◌else◌, inl, inr, length, lookup, lookup-insert, nat_eq, none, refl,
  some, str_eq, sym, true, value_or, ℕ, ◌==◌, ◌∷◌, ◌≡◌, ◌⊎◌,
}

module _ (uid : ℕ) (excluded : List ℕ) (read_args : ℕ → Option (List Str))
    (sum : HostTarget → Str) where
  -- An `ssh` process of the user, not excluded, whose arguments can be read and name the target.
  pub record IsConnection (p : HostProcess) (t : HostTarget) : Type 0 where
    pub own : p.uid ≡ uid
    pub kept : contains excluded p.pid ≡ false
    pub is_ssh : p.name ≡ bytes "ssh"
    pub args : List Str
    pub read : read_args p.pid ≡ some args
    pub parsed : parse_ssh_process args ≡ some t

  -- A process of the list is a connection to the target.
  abbrev pub Connects : List HostProcess → HostTarget → Type 0
  Connects [] t = ⊥
  Connects (p ∷ rest) t = IsConnection p t ⊎ Connects rest t

  IsConnection-of_process_target :
      (p : HostProcess) (t : HostTarget)
      → process_target uid excluded read_args sum p ≡ some t
      → IsConnection p t
  unfolding process_target is_skipped parse_ssh_process
  IsConnection-of_process_target p t h = elim (Option-cases (read_args p.pid)) [
    | inl unread ↦ absurd (ground arith)
    | inr (args, read) ↦ record {
      own = eq_of_== p.uid uid (ground arith);
      kept = ground arith;
      is_ssh = eq_of_== p.name (bytes "ssh") (ground arith);
      args = args;
      read = read;
      parsed = ground arith;
    }
  ]

  parses :
      (args : List Str) (t : HostTarget)
      → parse_ssh_process args ≡ some t
      → (if length args == 0 then none else parse_ssh_process args) ≡ some t
  unfolding parse_ssh_process
  parses [] t h = absurd (ground arith)
  parses (a ∷ args) t h = ground arith

  process_target-of_IsConnection :
      (p : HostProcess) (t : HostTarget)
      → IsConnection p t
      → process_target uid excluded read_args sum p ≡ some t
  unfolding process_target is_skipped
  process_target-of_IsConnection p t c =
      rw (c.own, c.kept, c.is_ssh, ==_refl uid, ==_refl (bytes "ssh"), c.read)
        (parses c.args t c.parsed)

  abbrev pub id_of : HostTarget → Str
  id_of t = value_or (target_id sum t) []

  from-put_target :
      (o : Option HostTarget) (targets : Map Str HostTarget) (key : Str) (t : HostTarget)
      → lookup key (put_target uid excluded read_args sum o targets) ≡ some t
      → (lookup key targets ≡ some t) ⊎ ((o ≡ some t) × (id_of t ≡ key))
  unfolding put_target
  from-put_target none targets key t h = inl h
  from-put_target (some found) targets key t h =
      let put = lookup-insert (id_of found) key found targets in
      elim (Bool-cases (id_of found == key)) [
        | inl here ↦ inr (ground (arith, put), ground (arith, put, eq_of_== (id_of found) key here))
        | inr other ↦ inl (ground (arith, put))
      ]

  has-put_target :
      (o : Option HostTarget) (targets : Map Str HostTarget) (key : Str)
      → has key targets ≡ true
      → has key (put_target uid excluded read_args sum o targets) ≡ true
  unfolding put_target
  has-put_target none targets key h = h
  has-put_target (some found) targets key h =
      ground (arith, lookup-insert (id_of found) key found targets)

  put_target-has :
      (targets : Map Str HostTarget) (t : HostTarget)
      → has (id_of t) (put_target uid excluded read_args sum (some t) targets) ≡ true
  unfolding put_target
  put_target-has targets t =
      ground (arith, lookup-insert (id_of t) (id_of t) t targets, ==_refl (id_of t))

  from-find_targets :
      (processes : List HostProcess) (targets : Map Str HostTarget) (key : Str) (t : HostTarget)
      → lookup key (find_targets uid excluded read_args sum processes targets) ≡ some t
      → (lookup key targets ≡ some t) ⊎ (Connects processes t × (id_of t ≡ key))
  unfolding find_targets
  from-find_targets [] targets key t h = inl h
  from-find_targets (p ∷ rest) targets key t h =
      let found = process_target uid excluded read_args sum p in
      elim (from-find_targets rest (put_target uid excluded read_args sum found targets) key t h) [
        | inr (later, same) ↦ inr (inr later, same)
        | inl before ↦ elim (from-put_target found targets key t before) [
          | inl earlier ↦ inl earlier
          | inr (here, same) ↦ inr (inl (IsConnection-of_process_target p t here), same)
        ]
      ]

  has-find_targets :
      (processes : List HostProcess) (targets : Map Str HostTarget) (key : Str)
      → has key targets ≡ true
      → has key (find_targets uid excluded read_args sum processes targets) ≡ true
  unfolding find_targets
  has-find_targets [] targets key h = h
  has-find_targets (p ∷ rest) targets key h =
      let found = process_target uid excluded read_args sum p in
      has-find_targets rest (put_target uid excluded read_args sum found targets) key
        (has-put_target found targets key h)

  find_targets-has :
      (processes : List HostProcess) (targets : Map Str HostTarget) (t : HostTarget)
      → Connects processes t
      → has (id_of t) (find_targets uid excluded read_args sum processes targets) ≡ true
  unfolding find_targets
  find_targets-has [] targets t c = absurd c
  find_targets-has (p ∷ rest) targets t (inr later) =
      find_targets-has rest
        (put_target uid excluded read_args sum (process_target uid excluded read_args sum p)
          targets)
        t later
  find_targets-has (p ∷ rest) targets t (inl here) =
      let found = process_target uid excluded read_args sum p in
      has-find_targets rest (put_target uid excluded read_args sum found targets) (id_of t) (
        subst (λ o. has (id_of t) (put_target uid excluded read_args sum o targets) ≡ true)
          (sym (process_target-of_IsConnection p t here)) (put_target-has targets t))

  Connects-valid :
      (processes : List HostProcess) (t : HostTarget)
      → Connects processes t
      → validate_target t.target t ≡ none
  Connects-valid [] t c = absurd c
  Connects-valid (p ∷ rest) t (inl here) = parse_ssh_process-valid here.args t here.parsed
  Connects-valid (p ∷ rest) t (inr later) = Connects-valid rest t later

-- discoverProcesses ends. With the processes that it excludes, it returns exactly the connections: every
-- target that it returns stands under its identifier, is valid and is what parseSSHProcess reads
-- from an `ssh` process of the user that is not excluded, and no such process is left out.
pub discover_processes_lem :
    (processes : List HostProcess) (own_pid uid : ℕ) (read_args : ℕ → Option (List Str))
    (sum : HostTarget → Str)
    → (excluded : List ℕ) × (targets : Map Str HostTarget) × (excluded_processes processes own_pid
        ≡ some excluded)
      × (discover_processes processes own_pid uid read_args sum ≡ some targets)
      × ((key : Str) (t : HostTarget)
          → lookup key targets ≡ some t
          → Connects uid excluded read_args sum processes t
            × (id_of uid excluded read_args sum t ≡ key)
            × (validate_target t.target t ≡ none))
      × ((t : HostTarget)
          → Connects uid excluded read_args sum processes t
          → has (id_of uid excluded read_args sum t) targets ≡ true)
unfolding discover_processes lookup
discover_processes_lem processes own_pid uid read_args sum =
    let (excluded, e, closed, least) = excluded_processes_lem processes own_pid in
    (
      excluded,
      find_targets uid excluded read_args sum processes [],
      e,
      rw (discover_processes, e) refl,
      λ key t h. elim (from-find_targets uid excluded read_args sum processes [] key t h) [
        | inl nowhere ↦ absurd (ground arith)
        | inr (c, same) ↦ (c, same, Connects-valid uid excluded read_args sum processes t c)
      ],
      λ t c. find_targets-has uid excluded read_args sum processes [] t c,
    )
