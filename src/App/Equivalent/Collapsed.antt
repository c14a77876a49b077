-- ===== src/App/Equivalent/Collapsed.antt =====
-- Which targets `collapseSameHosts` keeps.
use mathlib.Core.Path.{subst}
use ssh_forward.App.Equivalent.{
  beats, collapse_groups, collapse_same_hosts, group_key, group_targets, resolve_targets, target_of,
  winner_of,
}
use ssh_forward.App.Equivalent.Choice.{
  IsStrictOrder, IsUnbeaten, IsUnbeaten-unique, winner_of-IsUnbeaten,
}
use ssh_forward.App.Equivalent.Groups.{
  All-of_lookup, IsKeyed, contains-group_targets, group_targets-IsGrouped, group_targets-Unique,
  names_at,
}
use ssh_forward.App.Equivalent.Order.{beats-IsStrictOrder}
use ssh_forward.App.Targets.{DiscoveredHost, HostIdentity, HostTarget}
use ssh_forward.Core.Types.{direction_eq, key_eq, state_eq, target_eq}
use ssh_forward.Prelude.{
  ==_refl, All, Bool, List, Map, Option, Str, Unique, [], ap, arith, bool_eq, contains, false, has,
  if◌then◌else◌, insert, lookup, lookup-insert, nat_eq, none, refl, some, str_eq, sym, true, ◌&&◌,
  ◌==◌, ◌↔◌, ◌∙◌, ◌∷◌, ◌≡◌,
}

module _ (resolve : Str → HostTarget → Option HostIdentity) (cached : Map Str HostIdentity)
    (targets explicit : Map Str HostTarget) (aliases : List Str) where
  abbrev at : Str → HostTarget
  at = target_of resolve cached targets explicit aliases

  -- The destination of a name, or a text that is the name's own.
  abbrev pub destination_of : Str → Str
  destination_of n = group_key resolve cached n (at n)

  abbrev resolved : Map Str DiscoveredHost
  resolved = resolve_targets resolve cached targets []

  abbrev better : Str → Str → Bool
  better = beats resolve cached targets explicit aliases resolved

  abbrev groups : Map Str (List Str)
  groups = group_targets resolve cached targets []

  better-IsStrictOrder : IsStrictOrder better
  better-IsStrictOrder = beats-IsStrictOrder resolve cached targets explicit aliases resolved

  abbrev wins : Str → List Str → Bool
  wins n [] = false
  wins n (name ∷ names) = winner_of better name names == n

  abbrev IsGrouped : Map Str (List Str) → Type 0
  IsGrouped =
      All (λ (e : Str × List Str). (m : Str) → contains e.1 m ≡ true → destination_of m ≡ e.0)

  -- The winner of a group is one of its names.
  destination_of_winner :
      (k name : Str) (names : List Str)
      → ((m : Str) → contains (name ∷ names) m ≡ true → destination_of m ≡ k)
      → destination_of (winner_of better name names) ≡ k
  destination_of_winner k name names g =
      g _ (winner_of-IsUnbeaten better better-IsStrictOrder name names).member

  lookup-collapse_groups :
      (gs : Map Str (List Str)) (collapsed : Map Str HostTarget)
      → Unique gs
      → IsGrouped gs
      → (n : Str)
      → lookup n (collapse_groups resolve cached targets explicit aliases resolved gs collapsed)
        ≡ (if wins n (names_at (destination_of n) gs) then some (at n) else lookup n collapsed)
  unfolding collapse_groups lookup
  lookup-collapse_groups [] collapsed u g n = refl
  lookup-collapse_groups ((k, []) ∷ rest) collapsed u g n =
      ground (arith, lookup-collapse_groups rest collapsed u.1 g.1 n)
  lookup-collapse_groups ((k, name ∷ names) ∷ rest) collapsed u g n =
      let w = winner_of better name names in
      ground (
        arith,
        lookup-collapse_groups rest (insert w (at w) collapsed) u.1 g.1 n,
        lookup-insert w n (at w) collapsed,
        destination_of_winner k name names g.0,
        u.0,
      )

  -- The target is listed under this name, and none of the same destination is preferred to it.
  pub record IsChosen (n : Str) (t : HostTarget) : Type 0 where
    pub listed : lookup n targets ≡ some t
    pub unbeaten :
        (m : Str) → has m targets ≡ true → destination_of m ≡ destination_of n → better m n ≡ false

  module _ (unique : Unique targets) where
    at-listed : (n : Str) (t : HostTarget) → lookup n targets ≡ some t → at n ≡ t
    at-listed n t h = rw h refl

    keyed : IsKeyed resolve cached destination_of targets
    keyed =
        All-of_lookup (λ n t. group_key resolve cached n t ≡ destination_of n) targets unique
          (λ n t h. ap (group_key resolve cached n) (sym (at-listed n t h)))

    contains-group :
        (k n : Str) → contains (names_at k groups) n ≡ (has n targets && destination_of n == k)
    unfolding contains lookup
    contains-group k n = contains-group_targets resolve cached destination_of targets [] keyed k n

    lookup-collapsed :
        (n : Str)
        → lookup n (collapse_same_hosts resolve cached targets explicit aliases).0
          ≡ (if wins n (names_at (destination_of n) groups) then some (at n) else none)
    unfolding collapse_same_hosts lookup
    lookup-collapsed =
        lookup-collapse_groups groups []
          (group_targets-Unique resolve cached destination_of targets [] tt)
          (group_targets-IsGrouped resolve cached destination_of targets keyed)

    -- The winner of a group is its only name that none of the group beats.
    wins_iff : (n : Str) (names : List Str) → (wins n names ≡ true) ↔ IsUnbeaten better names n
    unfolding contains
    wins_iff n [] = (λ h. absurd (ground arith), λ u. absurd (ground (arith, u.member)))
    wins_iff n (name ∷ names) =
        let u = winner_of-IsUnbeaten better better-IsStrictOrder name names in
        (
          λ h. subst (IsUnbeaten better (name ∷ names)) (ground arith) u,
          λ v.
              rw (IsUnbeaten-unique better better-IsStrictOrder (name ∷ names) _ n u v) (==_refl n),
        )

    -- `collapseSameHosts` keeps exactly the targets that no target of the same destination is
    -- preferred to, in whatever order it goes through the targets and the groups.
    pub collapse_same_hosts_iff :
        (n : Str) (t : HostTarget)
        → (lookup n (collapse_same_hosts resolve cached targets explicit aliases).0 ≡ some t)
          ↔ IsChosen n t
    unfolding lookup
    collapse_same_hosts_iff n t =
        let names = names_at (destination_of n) groups in
        (
          λ h.
              let u = (wins_iff n names).0 (ground (arith, lookup-collapsed n)) in
              let own = contains-group (destination_of n) n in
              record {
                listed = ground (arith, lookup-collapsed n, own, u.member);
                unbeaten =
                    λ m here same. u.best m (ground (arith, contains-group (destination_of n) m));
              },
          λ c.
              let w = (wins_iff n names).1 (record {
                member = ground (arith, contains-group (destination_of n) n, c.listed);
                best = λ m h.
                    c.unbeaten m (ground (arith, contains-group (destination_of n) m))
                      (ground (arith, contains-group (destination_of n) m));
              }) in
              ground (arith, lookup-collapsed n, at-listed n t c.listed),
        )

    has-collapsed :
        (n : Str)
        → has n (collapse_same_hosts resolve cached targets explicit aliases).0
          ≡ wins n (names_at (destination_of n) groups)
    has-collapsed n = ground (arith, lookup-collapsed n)

    winner_exists :
        (names : List Str) (n : Str) → contains names n ≡ true → (m : Str) × (wins m names ≡ true)
    unfolding contains
    winner_exists [] n h = absurd (ground arith)
    winner_exists (name ∷ names) n h =
        (winner_of better name names, ==_refl (winner_of better name names))

    -- Every target has exactly one representative among the targets that are kept.
    pub collapse_same_hosts_covers :
        (n : Str)
        → has n targets ≡ true
        → (m : Str) × (has m (collapse_same_hosts resolve cached targets explicit aliases).0 ≡ true)
          × (destination_of m ≡ destination_of n)
          × ((l : Str)
              → has l (collapse_same_hosts resolve cached targets explicit aliases).0 ≡ true
              → destination_of l ≡ destination_of n
              → l ≡ m)
    collapse_same_hosts_covers n here =
        let names = names_at (destination_of n) groups in
        let own = contains-group (destination_of n) n in
        let (m, w) = winner_exists names n (own ∙ rw here (==_refl (destination_of n))) in
        let u = (wins_iff m names).0 w in
        let same : destination_of m ≡ destination_of n =
          ground (arith, contains-group (destination_of n) m, u.member) in
        (
          m,
          has-collapsed m ∙ rw same w,
          same,
          λ l kept same'.
              let v = (wins_iff l names).0 (rw (← same') (sym (has-collapsed l) ∙ kept)) in
              IsUnbeaten-unique better better-IsStrictOrder names l m v u,
        )
