-- ===== src/App/Pool/Reload.antt =====
-- `reload` of the pool as a whole.
use mathlib.Core.Path.{subst}
use ssh_forward.App.Pool.{
  ManagerOps, Pool, ReloadInput, host_intent, is_stale, pool_closed, reload, request,
  reserved_ports, wanted_targets,
}
use ssh_forward.App.Pool.Reloaded.{wanted_targets-Unique}
use ssh_forward.App.Pool.Settled.{Settled, reads, sync_managers-Settled}
use ssh_forward.App.Targets.{DiscoveredHost, HostTarget}
use ssh_forward.App.Wire.{Configuration}
use ssh_forward.Core.Types.{direction_eq, key_eq, state_eq, target_eq}
use ssh_forward.Prelude.{
  Bool, Bool-cases, Map, Option, Option-cases, Str, [], ap, arith, bool_eq, false, has,
  if◌then◌else◌, inl, inr, lookup, nat_eq, none, refl, some, str_eq, sym, true, ◌==◌, ◌∙◌, ◌≡◌,
}

module _ {M : Type 0} (ops : ManagerOps M) (host : Str) (input : ReloadInput) (p : Pool M) where
  abbrev pub targets_of : Configuration → Map Str DiscoveredHost → Map Str HostTarget
  targets_of config records = wanted_targets input config records (request host p).requested

  -- What a reload of an open pool does with the name `k`, given what it read.
  pub record IsReloaded (config : Configuration) (records : Map Str DiscoveredHost) (q : Pool M)
      (k : Str) : Type 0 where
    pub was_open : p.closed ≡ false
    pub read : input.config ≡ some config
    pub listed : input.records ≡ some records
    pub stored : input.written ≡ true
    pub stays_open : q.closed ≡ false
    pub targets_at : q.targets ≡ some (targets_of config records)
    pub settled :
        Settled ops
          (host_intent config (reserved_ports config (targets_of config records)))
          (targets_of config records)
          k
          (has k (targets_of config records))
          (if is_stale p.targets (targets_of config records) k then none else lookup k p.managers)
          (lookup k q.managers)

  pub request_keeps :
      ◌≡◌ {A = Map Str M × Option (Map Str HostTarget) × Bool}
        ((request host p).managers, (request host p).targets, (request host p).closed)
        (p.managers, p.targets, p.closed)
  request_keeps = elim (Bool-cases (host == [])) [ inl e ↦ rw e refl | inr e ↦ rw e refl ]

  pub refuses : p.closed ≡ true → reload ops host input p ≡ (p, some pool_closed)
  unfolding reload
  refuses o = simp (reload, o)

  pub IsReloaded-of_reads :
      (config : Configuration) (records : Map Str DiscoveredHost) (q : Pool M) (k : Str)
      → p.closed ≡ false
      → input.config ≡ some config
      → input.records ≡ some records
      → input.written ≡ true
      → reload ops host input p ≡ (q, none)
      → IsReloaded config records q k
  IsReloaded-of_reads config records q k o c r w h =
      let targets = targets_of config records in
      let s =
        sync_managers-Settled ops config targets (request host p) q k
          (wanted_targets-Unique input config records (request host p).requested)
          (sym (reads ops host input p (some config) (some records) true o c r w) ∙ h) in
      record {
        was_open = o;
        read = c;
        listed = r;
        stored = w;
        stays_open = s.0 ∙ ap (λ e. e.2) request_keeps ∙ o;
        targets_at = s.1;
        settled =
            subst
              (λ e.
                Settled ops (host_intent config (reserved_ports config targets)) targets k
                  (has k targets) (if is_stale e.1 targets k then none else lookup k e.0)
                  (lookup k q.managers))
              request_keeps s.2;
      }

  -- A reload that returns no error found the pool open, read the configuration and the records and
  -- stored the records. It leaves the pool open with the targets that follow from what it read. A name
  -- that is none of these has no manager then; under a target the manager is what an update of the
  -- old manager returns, or, where the name had none or another target, a new one, both with the
  -- intent of this host.
  pub reload_lem :
      (q : Pool M) (k : Str)
      → reload ops host input p ≡ (q, none)
      → (config : Configuration) × (records : Map Str DiscoveredHost) × IsReloaded config records q
          k
  reload_lem q k h =
      let ok_end = ap (λ r. r.1) h in
      elim (Bool-cases p.closed) [
        | inl c ↦ absurd (ground (arith, ok_end, ap (λ r. r.1) (refuses c)))
        | inr o ↦
            let runs =
              λ (config : Option Configuration) (records : Option (Map Str DiscoveredHost))
                  (stores : Bool) (c : input.config ≡ config) (r : input.records ≡ records)
                  (w : input.written ≡ stores).
                ap (λ r. r.1) (reads ops host input p config records stores o c r w) in
            elim (Option-cases input.config) [
              | inl c ↦
                  absurd (ground (arith, ok_end, runs none input.records input.written c refl refl))
              | inr (config, c) ↦ elim (Option-cases input.records) [
                | inl r ↦
                    absurd (ground (arith, ok_end, runs (some config) none input.written c r refl))
                | inr (records, r) ↦ elim (Bool-cases input.written) [
                  | inr w ↦
                      absurd (ground (arith, ok_end, runs (some config) (some records) false c r w))
                  | inl w ↦ (config, records, IsReloaded-of_reads config records q k o c r w h)
                ]
              ]
            ]
      ]
