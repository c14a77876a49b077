-- ===== src/App/Equivalent/Groups.antt =====
-- The groups of `collapseSameHosts`: the names of the targets, by destination.
use ssh_forward.App.Equivalent.{group_key, group_targets}
use ssh_forward.App.Targets.{HostIdentity, HostTarget}
use ssh_forward.Core.Types.{direction_eq, key_eq, state_eq, target_eq}
use ssh_forward.Prelude.{
  ==_refl, All, List, Map, Option, Str, Unique, [], arith, bool_eq, contains, contains-append, has,
  insert, insert-Unique, lookup, lookup-insert, nat_eq, some, str_eq, true, value_or, ◌&&◌, ◌++◌,
  ◌==◌, ◌||◌, ◌∷◌, ◌≡◌,
}

abbrev pub names_at : Str → Map Str (List Str) → List Str
names_at k groups = value_or (lookup k groups) []

-- What each lookup finds, each entry has.
pub All-of_lookup :
    {V : Type 0} (P : Str → V → Type 0) (m : Map Str V)
    → Unique m
    → ((k : Str) (v : V) → lookup k m ≡ some v → P k v)
    → All (λ (e : Str × V). P e.0 e.1) m
unfolding lookup
All-of_lookup P [] u f = tt
All-of_lookup P ((k, v) ∷ m) u f = (
  f k v (ground (arith, ==_refl k)),
  All-of_lookup P m u.1 (λ j w h. f j w (ground (arith, u.0))),
)

module _ (resolve : Str → HostTarget → Option HostIdentity) (cached : Map Str HostIdentity)
    (key_of : Str → Str) where
  abbrev pub IsKeyed : Map Str HostTarget → Type 0
  IsKeyed = All (λ (e : Str × HostTarget). group_key resolve cached e.0 e.1 ≡ key_of e.0)

  pub group_targets-Unique :
      (targets : Map Str HostTarget) (groups : Map Str (List Str))
      → Unique groups
      → Unique (group_targets resolve cached targets groups)
  unfolding group_targets
  group_targets-Unique [] groups u = u
  group_targets-Unique ((n, t) ∷ rest) groups u =
      group_targets-Unique rest _ (insert-Unique (group_key resolve cached n t) _ groups u)

  pub contains-group_targets :
      (targets : Map Str HostTarget) (groups : Map Str (List Str))
      → IsKeyed targets
      → (k n : Str)
      → contains (names_at k (group_targets resolve cached targets groups)) n
        ≡ (contains (names_at k groups) n || has n targets && key_of n == k)
  unfolding group_targets contains lookup
  contains-group_targets [] groups keyed k n = ground arith
  contains-group_targets ((m, t) ∷ rest) groups keyed k n =
      let j = group_key resolve cached m t in
      let names = names_at j groups ++ m ∷ [] in
      ground (
        arith,
        contains-group_targets rest (insert j names groups) keyed.1 k n,
        lookup-insert j k names groups,
        contains-append (names_at j groups) (m ∷ []) n,
        keyed.0,
      )

  -- Every name stands in the group of its own key.
  pub group_targets-IsGrouped :
      (targets : Map Str HostTarget)
      → IsKeyed targets
      → All
          (λ (e : Str × List Str). (m : Str) → contains e.1 m ≡ true → key_of m ≡ e.0)
          (group_targets resolve cached targets [])
  unfolding contains lookup
  group_targets-IsGrouped targets keyed =
      All-of_lookup (λ k names. (m : Str) → contains names m ≡ true → key_of m ≡ k) _
        (group_targets-Unique targets [] tt)
        (λ k names h m c. ground (arith, contains-group_targets targets [] keyed k m))
