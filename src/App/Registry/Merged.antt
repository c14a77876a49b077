-- ===== src/App/Registry/Merged.antt =====
-- What `mergeDiscovered` records.
use ssh_forward.App.Registry.{add_found, merge_discovered, renew_resolved, renewed}
use ssh_forward.App.Registry.Renewed.{IsUpdateOf, updated, updated-IsUpdateOf, updated-none}
use ssh_forward.App.Targets.{DiscoveredHost, HostTarget}
use ssh_forward.Core.Types.{direction_eq, key_eq, state_eq, target_eq}
use ssh_forward.Prelude.{
  Map, Option, Option-cases, Str, Unique, [], ap, arith, bool_eq, eq_of_==, false, has,
  if◌then◌else◌, inl, inr, insert, lookup, lookup-insert, nat_eq, none, refl, some, str_eq, ◌∙◌,
  ◌∷◌, ◌≡◌,
}

-- The record of a name, by what was found and what was resolved under it.
abbrev pub added : Option DiscoveredHost → Option HostTarget → Option DiscoveredHost
added (some old) found = some old
added none none = none
added none (some t) = some (record { host_target = t; identity = none })

lookup-add_found :
    (found : Map Str HostTarget) (existing : Map Str DiscoveredHost) (k : Str)
    → Unique found
    → lookup k (add_found found existing).0 ≡ added (lookup k existing) (lookup k found)
unfolding add_found lookup
lookup-add_found [] existing k u = ground arith
lookup-add_found ((name, t) ∷ rest) existing k u =
    let fresh : DiscoveredHost = record { host_target = t; identity = none } in
    let next = if has name existing then existing else insert name fresh existing in
    ground (
      arith,
      u,
      lookup-add_found rest next k u.1,
      lookup-insert name k fresh existing,
      eq_of_== name k,
    )

lookup-renew_resolved :
    (resolved existing : Map Str DiscoveredHost) (k : Str)
    → Unique resolved
    → lookup k (renew_resolved resolved existing).0
      ≡ updated (lookup k existing) (lookup k resolved)
unfolding renew_resolved lookup
lookup-renew_resolved [] existing k u = refl
lookup-renew_resolved ((name, fresh) ∷ rest) existing k u =
    elim (Option-cases (renewed (lookup name existing) fresh)) [
      | inl kept_record ↦
          ground (arith, u, lookup-renew_resolved rest existing k u.1, eq_of_== name k)
      | inr (h, e) ↦ ground (
        arith,
        u,
        e,
        lookup-renew_resolved rest (insert name h existing) k u.1,
        lookup-insert name k h existing,
        eq_of_== name k,
      )
    ]

add_found-unchanged :
    (found : Map Str HostTarget) (existing : Map Str DiscoveredHost)
    → (add_found found existing).1 ≡ false
    → (add_found found existing).0 ≡ existing
unfolding add_found
add_found-unchanged [] existing h = refl
add_found-unchanged ((name, t) ∷ rest) existing h =
    ground (arith, add_found-unchanged rest existing)

renew_resolved-unchanged :
    (resolved existing : Map Str DiscoveredHost)
    → (renew_resolved resolved existing).1 ≡ false
    → (renew_resolved resolved existing).0 ≡ existing
unfolding renew_resolved
renew_resolved-unchanged [] existing h = refl
renew_resolved-unchanged ((name, fresh) ∷ rest) existing h =
    ground (arith, renew_resolved-unchanged rest existing)

-- Where no name is twice among the found targets or among the resolved hosts, mergeDiscovered leaves
-- under each name the record that was there, or else one of the target found there, or else none.
-- Its settings stay, and its identity is the one that was resolved under the name if this was resolved
-- for exactly these settings, and else the old one. So the order of the loops over the maps does not
-- matter, and where nothing is to be written nothing has changed.
pub merge_discovered_lem :
    (found : Map Str HostTarget) (resolved existing : Map Str DiscoveredHost)
    → Unique found
    → Unique resolved
    → ((k : Str)
        → added (lookup k existing) (lookup k found) ≡ none
        → lookup k (merge_discovered found resolved existing).0 ≡ none)
      × ((k : Str) (old : DiscoveredHost)
          → added (lookup k existing) (lookup k found) ≡ some old
          → (new : DiscoveredHost) × (lookup k (merge_discovered found resolved existing).0
              ≡ some new)
            × IsUpdateOf old (lookup k resolved) new)
      × ((merge_discovered found resolved existing).1 ≡ false
          → (merge_discovered found resolved existing).0 ≡ existing)
unfolding merge_discovered
merge_discovered_lem found resolved existing uf ur =
    let grown = add_found found existing in
    let at : (k : Str)
        → lookup k (renew_resolved resolved grown.0).0
          ≡ updated (added (lookup k existing) (lookup k found)) (lookup k resolved) =
      λ k.
        lookup-renew_resolved resolved grown.0 k ur
        ∙ ap (λ o. updated o (lookup k resolved)) (lookup-add_found found existing k uf) in
    (
      λ k h. at k ∙ rw h (updated-none (lookup k resolved)),
      λ k old h.
          let (new, e, update) = updated-IsUpdateOf old (lookup k resolved) in
          (new, at k ∙ rw h e, update),
      λ h.
          renew_resolved-unchanged resolved grown.0 (ground arith)
          ∙ add_found-unchanged found existing (ground arith),
    )
