-- ===== src/App/Registry/Renewed.antt =====
-- What a resolved host changes in a record: the body of the second loop of `mergeDiscovered`.
use mathlib.Core.Option.{some-injective}
use mathlib.Core.Path.{ap₂, subst}
use ssh_forward.App.Registry.{equal, is_renewed, renewed, same_settings}
use ssh_forward.App.Targets.{DiscoveredHost, HostIdentity, HostTarget}
use ssh_forward.Core.Reconcile.{keeps}
use ssh_forward.Core.Types.{direction_eq, key_eq, state_eq, target_eq}
use ssh_forward.Prelude.{
  ==_refl, Bool-cases, List, Option, Str, [], ap, arith, bool_eq, eq_of_==, false, inl, inr, nat_eq,
  none, or_else, refl, some, str_eq, sym, true, ◌↔◌, ◌∙◌, ◌∷◌, ◌≡◌, ◌≢◌,
}

-- The record after what was resolved under its name.
abbrev pub updated : Option DiscoveredHost → Option DiscoveredHost → Option DiscoveredHost
updated old none = old
updated old (some fresh) = or_else (renewed old fresh) old

eq_of_equal : (ss ts : List Str) → equal ss ts ≡ true → ss ≡ ts
unfolding equal
eq_of_equal [] [] h = refl
eq_of_equal [] (t ∷ ts) h = absurd (ground arith)
eq_of_equal (s ∷ ss) [] h = absurd (ground arith)
eq_of_equal (s ∷ ss) (t ∷ ts) h =
    ap₂ (λ x xs. x ∷ xs) (eq_of_== s t (ground arith)) (eq_of_equal ss ts (ground arith))

equal_refl : (ss : List Str) → equal ss ss ≡ true
unfolding equal
equal_refl [] = refl
equal_refl (s ∷ ss) = ground (arith, ==_refl s, equal_refl ss)

same_settings_iff : (t u : HostTarget) → (same_settings t u ≡ true) ↔ (t ≡ u)
unfolding same_settings
same_settings_iff t u = (
  λ h.
      ap₂ (λ x xs. record { target = x; arguments = xs })
        (eq_of_== t.target u.target (ground arith))
        (eq_of_equal t.arguments u.arguments (ground arith)),
  λ e.
      subst (λ (v : HostTarget). same_settings t v ≡ true) e
        (ground (arith, ==_refl t.target, equal_refl t.arguments)),
)

-- A record of these settings and this identity may replace the old one, by what was resolved for the
-- name: the settings stay, and the identity is the resolved one exactly for the same settings.
pub record IsUpdateOf (old : DiscoveredHost) (resolved : Option DiscoveredHost)
    (new : DiscoveredHost) : Type 0 where
  pub same : new.host_target ≡ old.host_target
  pub unresolved : resolved ≡ none → new.identity ≡ old.identity
  pub fresh :
      (r : DiscoveredHost)
      → resolved ≡ some r
      → old.host_target ≡ r.host_target
      → new.identity ≡ r.identity
  pub outdated :
      (r : DiscoveredHost)
      → resolved ≡ some r
      → old.host_target ≢ r.host_target
      → new.identity ≡ old.identity

same_identity : (old fresh : Option HostIdentity) → is_renewed old fresh ≡ false → old ≡ fresh
unfolding is_renewed
same_identity none fresh h = absurd (ground arith)
same_identity (some old) none h = absurd (ground arith)
same_identity (some old) (some fresh) h =
    ap₂ (λ u n. some (record { user = u; hostname = n }))
      (eq_of_== old.user fresh.user (ground arith))
      (eq_of_== old.hostname fresh.hostname (ground arith))

renewed-IsUpdateOf :
    (old r : DiscoveredHost)
    → (new : DiscoveredHost) × (updated (some old) (some r) ≡ some new)
      × IsUpdateOf old (some r) new
unfolding renewed
renewed-IsUpdateOf old r = elim (Bool-cases (same_settings old.host_target r.host_target)) [
  | inr other ↦ (
    old,
    rw other refl,
    record {
      same = refl;
      unresolved = λ h. refl;
      fresh = λ s e t. absurd (
          ground (
            arith,
            other,
            (same_settings_iff old.host_target r.host_target).1
                (t ∙ ap (λ (x : DiscoveredHost). x.host_target) (some-injective _ _ (sym e))),
          ));
      outdated = λ s e t. refl;
    },
  )
  | inl fits ↦ elim (Bool-cases (is_renewed old.identity r.identity)) [
    | inl changes ↦ (
      record old { identity = r.identity },
      rw (fits, changes) refl,
      record {
        same = refl;
        unresolved = λ h. absurd (ground arith);
        fresh = λ s e t. ap (λ (x : DiscoveredHost). x.identity) (some-injective _ _ e);
        outdated = λ s e t. absurd (
            t (
              (same_settings_iff old.host_target r.host_target).0 fits
              ∙ ap (λ (x : DiscoveredHost). x.host_target) (some-injective _ _ e)));
      },
    )
    | inr keeps ↦ (
      old,
      rw (fits, keeps) refl,
      record {
        same = refl;
        unresolved = λ h. refl;
        fresh = λ s e t.
            same_identity old.identity r.identity keeps
            ∙ ap (λ (x : DiscoveredHost). x.identity) (some-injective _ _ e);
        outdated = λ s e t. refl;
      },
    )
  ]
]

pub updated-IsUpdateOf :
    (old : DiscoveredHost) (fresh : Option DiscoveredHost)
    → (new : DiscoveredHost) × (updated (some old) fresh ≡ some new) × IsUpdateOf old fresh new
updated-IsUpdateOf old (some r) = renewed-IsUpdateOf old r
updated-IsUpdateOf old none = (
  old,
  refl,
  record {
    same = refl;
    unresolved = λ h. refl;
    fresh = λ s e t. absurd (ground arith);
    outdated = λ s e t. absurd (ground arith);
  },
)

pub updated-none : (fresh : Option DiscoveredHost) → updated none fresh ≡ none
unfolding renewed
updated-none none = refl
updated-none (some r) = refl
