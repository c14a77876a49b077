-- ===== src/App/Pool/Reloaded.antt =====
-- The names of the targets of a reload, and the managers that it closes.
use ssh_forward.App.Equivalent.{
  collapse_groups, collapse_same_hosts, group_targets, resolve_targets,
}
use ssh_forward.App.HostTargets.{delete_ignored, host_targets, known_targets}
use ssh_forward.App.Pool.{
  ManagerOps, PoolError, ReloadInput, close_failed, close_stale, wanted_targets,
}
use ssh_forward.App.Targets.{DiscoveredHost, HostIdentity, HostTarget}
use ssh_forward.App.Wire.{Configuration}
use ssh_forward.Core.Manager.Operations.{ManagerError}
use ssh_forward.Core.Reconcile.{keeps}
use ssh_forward.Core.Types.{direction_eq, key_eq, state_eq, target_eq}
use ssh_forward.Prelude.{
  Bool, Bool-cases, Distinct, Distinct-sorted, List, Map, Option, Option-cases, Str, Unique, [], ap,
  arith, bool_eq, contains, contains-keys, contains-sorted, false, has, if◌then◌else◌, inl, inr,
  insert-Unique, keys, lookup, nat_eq, none, refl, some, sort_func, str_compare, str_eq, sym, true,
  ◌||◌, ◌∙◌, ◌∷◌, ◌≡◌,
}

delete_ignored-Unique :
    (ignored : List Str) (m : Map Str HostTarget)
    → Unique m
    → ((k : Str) → has k m ≡ false → has k (delete_ignored ignored m) ≡ false)
      × Unique (delete_ignored ignored m)
unfolding delete_ignored lookup
delete_ignored-Unique ignored [] u = (λ k h. h, tt)
delete_ignored-Unique ignored ((name, t) ∷ rest) u =
    let later = delete_ignored-Unique ignored rest u.1 in
    elim (Bool-cases (contains ignored name || contains ignored t.target)) [
      | inl drops ↦ (λ k h. rw drops (later.0 k (ground (arith, h))), rw drops later.1)
      | inr keeps ↦
          (λ k h. rw keeps (ground (arith, h, later.0 k)), rw keeps (later.0 name u.0, later.1))
    ]

Distinct-keys : (m : Map Str HostTarget) → Unique m → Distinct (keys m)
unfolding contains
Distinct-keys [] u = tt
Distinct-keys ((name, t) ∷ rest) u = (contains-keys name rest ∙ u.0, Distinct-keys rest u.1)

module _ (resolve : Str → HostTarget → Option HostIdentity) (cached : Map Str HostIdentity)
    (targets explicit : Map Str HostTarget) (aliases : List Str) where
  collapse_groups-Unique :
      (resolved : Map Str DiscoveredHost) (gs : Map Str (List Str)) (collapsed : Map Str HostTarget)
      → Unique collapsed
      → Unique (collapse_groups resolve cached targets explicit aliases resolved gs collapsed)
  unfolding collapse_groups
  collapse_groups-Unique resolved [] collapsed u = u
  collapse_groups-Unique resolved ((k, []) ∷ rest) collapsed u =
      collapse_groups-Unique resolved rest collapsed u
  collapse_groups-Unique resolved ((k, name ∷ names) ∷ rest) collapsed u =
      collapse_groups-Unique resolved rest _ (insert-Unique _ _ collapsed u)

  collapse_same_hosts-Unique :
      Unique (collapse_same_hosts resolve cached targets explicit aliases).0
  unfolding collapse_same_hosts
  collapse_same_hosts-Unique =
      collapse_groups-Unique (resolve_targets resolve cached targets [])
        (group_targets resolve cached targets []) [] tt

pub wanted_targets-Unique :
    (input : ReloadInput) (config : Configuration) (records : Map Str DiscoveredHost)
    (requested : Map Str HostTarget)
    → Unique (wanted_targets input config records requested)
unfolding wanted_targets host_targets
wanted_targets-Unique input config records requested =
    let known = known_targets input.missing config records requested in
    (delete_ignored-Unique config.ignored_hosts _
      (collapse_same_hosts-Unique input.resolve known.1 known.0 config.hosts input.aliases)).1

pub sorted_keys :
    (m : Map Str HostTarget)
    → Unique m
    → Distinct (sort_func str_compare (keys m))
      × ((k : Str) → contains (sort_func str_compare (keys m)) k ≡ has k m)
sorted_keys m u = (
  Distinct-sorted str_compare (keys m) (Distinct-keys m u),
  λ k. contains-sorted str_compare (keys m) k ∙ contains-keys k m,
)

module _ {M : Type 0} (ops : ManagerOps M) where
  pub kept_first :
      (stale : Str → Bool) (name : Str) (m : M) (rest : Map Str M)
      → stale name ≡ false
      → close_stale ops stale ((name, m) ∷ rest)
        ≡ ((name, m) ∷ (close_stale ops stale rest).0, (close_stale ops stale rest).1)
  unfolding close_stale
  kept_first stale name m rest e = rw (close_stale, e) refl

  pub closed_first :
      (stale : Str → Bool) (name : Str) (m : M) (rest : Map Str M) (e : Option ManagerError)
      → stale name ≡ true
      → (ops.close name m).1 ≡ e
      → close_stale ops stale ((name, m) ∷ rest) ≡ elim e as (λ _. Map Str M × Option PoolError) [
        | some failure ↦ ((name, (ops.close name m).0) ∷ rest, some (close_failed name failure))
        | none ↦ close_stale ops stale rest
      ]
  unfolding close_stale
  closed_first stale name m rest none s e = rw (close_stale, s, e) refl
  closed_first stale name m rest (some failure) s e = rw (close_stale, s, e) refl

  pub lookup-close_stale :
      (stale : Str → Bool) (managers out : Map Str M) (k : Str)
      → close_stale ops stale managers ≡ (out, none)
      → lookup k out ≡ (if stale k then none else lookup k managers)
  unfolding close_stale lookup
  lookup-close_stale stale [] out k h = ap (lookup k) (ap (λ r. r.0) (sym h)) ∙ ground arith
  lookup-close_stale stale ((name, m) ∷ rest) out k h =
      let later = close_stale ops stale rest in
      elim (Bool-cases (stale name)) [
        | inr stays ↦
            let both : ((name, m) ∷ later.0, later.1) ≡ (out, none) =
              sym (kept_first stale name m rest stays) ∙ h in
            ap (lookup k) (ap (λ r. r.0) (sym both))
            ∙ ground (
              arith,
              stays,
              lookup-close_stale stale rest later.0 k (ap (λ e. (later.0, e)) (ap (λ r. r.1) both)),
            )
        | inl goes ↦ elim (Option-cases (ops.close name m).1) [
          | inr (failure, e) ↦
              absurd (ground (arith, h, closed_first stale name m rest (some failure) goes e))
          | inl e ↦ ground (
            arith,
            goes,
            lookup-close_stale stale rest out k
                (sym (closed_first stale name m rest none goes e) ∙ h),
          )
        ]
      ]
