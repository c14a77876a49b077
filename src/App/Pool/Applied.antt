-- ===== src/App/Pool/Applied.antt =====
-- What the last loop of `reload` leaves under each name.
use mathlib.Core.Path.{subst}
use ssh_forward.App.Pool.{
  ManagerOps, PoolError, apply_targets, start_failed, target_at, update_failed,
}
use ssh_forward.App.Targets.{HostTarget}
use ssh_forward.Core.Manager.Operations.{ManagerError}
use ssh_forward.Core.Types.{ForwardingIntent, direction_eq, key_eq, state_eq, target_eq}
use ssh_forward.Prelude.{
  ==_refl, Distinct, List, Map, Option, Option-cases, Result, Result-cases, Str, Str-discrete, [],
  ap, arith, bool_eq, contains, err, false, inl, inr, insert, lookup, lookup-insert, nat_eq, none,
  ok, refl, some, str_eq, sym, true, ◌==◌, ◌∙◌, ◌∷◌, ◌≡◌,
}

module _ {M : Type 0} (ops : ManagerOps M) (intent : Str → ForwardingIntent)
    (targets : Map Str HostTarget) where
  -- The manager of a name is the old one after an update, or else a new one.
  abbrev pub Managed : Str → Option M → Option M → Type 0
  Managed name (some m) new =
      (m' : M) × (new ≡ some m') × (ops.update name (intent name) m ≡ (m', none))
  Managed name none new =
      (m' : M) × (new ≡ some m') × (ops.create name (target_at name targets) (intent name) ≡ ok m')

  abbrev pub IsApplied : List Str → Map Str M → Map Str M → Str → Type 0
  IsApplied names managers out k =
      (contains names k ≡ true → Managed k (lookup k managers) (lookup k out))
      × (contains names k ≡ false → lookup k out ≡ lookup k managers)

  -- One round, before the others.
  round_first :
      (name : Str) (rest : List Str) (m : M) (managers out : Map Str M)
      → contains rest name ≡ false
      → Managed name (lookup name managers) (some m)
      → ((k : Str) → IsApplied rest (insert name m managers) out k)
      → (k : Str) → IsApplied (name ∷ rest) managers out k
  unfolding contains
  round_first name rest m managers out fresh now later k =
      let put = λ (j : Str). lookup-insert name j m managers in
      elim (Str-discrete name k) [
        | yes same ↦
            let stays : lookup name out ≡ some m =
              (later name).1 fresh ∙ ground (arith, put name, ==_refl name) in
            subst (IsApplied (name ∷ rest) managers out) same (
              λ c. subst (Managed name (lookup name managers)) (sym stays) now,
              λ c. absurd (ground (arith, c, ==_refl name)),
            )
        | no other ↦
            let apart : (name == k) ≡ false = ground arith in
            let kept_value : lookup k (insert name m managers) ≡ lookup k managers =
              ground (arith, put k, apart) in
            (
              λ c.
                  subst (λ o. Managed k o (lookup k out)) kept_value
                    ((later k).0 (ground (arith, apart, c))),
              λ c. (later k).1 (ground (arith, apart, c)) ∙ kept_value,
            )
      ]

  pub apply_updated :
      (name : Str) (rest : List Str) (managers : Map Str M) (m : M) (e : Option ManagerError)
      → lookup name managers ≡ some m
      → (ops.update name (intent name) m).1 ≡ e
      → apply_targets ops intent targets (name ∷ rest) managers
        ≡ elim e as (λ _. Map Str M × Option PoolError) [
          | some failure ↦ (
            insert name (ops.update name (intent name) m).0 managers,
            some (update_failed name failure),
          )
          | none ↦
              apply_targets ops intent targets rest
                (insert name (ops.update name (intent name) m).0 managers)
        ]
  unfolding apply_targets
  apply_updated name rest managers m none found e = rw (apply_targets, found, e) refl
  apply_updated name rest managers m (some failure) found e = rw (apply_targets, found, e) refl

  pub apply_created :
      (name : Str) (rest : List Str) (managers : Map Str M) (r : Result ManagerError M)
      → lookup name managers ≡ none
      → ops.create name (target_at name targets) (intent name) ≡ r
      → apply_targets ops intent targets (name ∷ rest) managers
        ≡ elim r as (λ _. Map Str M × Option PoolError) [
          | err failure ↦ (managers, some (start_failed name failure))
          | ok m ↦ apply_targets ops intent targets rest (insert name m managers)
        ]
  unfolding apply_targets
  apply_created name rest managers (ok m) found e = rw (apply_targets, found, e) refl
  apply_created name rest managers (err failure) found e = rw (apply_targets, found, e) refl

  pub apply_targets-IsApplied :
      (names : List Str) (managers out : Map Str M)
      → Distinct names
      → apply_targets ops intent targets names managers ≡ (out, none)
      → (k : Str) → IsApplied names managers out k
  unfolding apply_targets contains
  apply_targets-IsApplied [] managers out d h k =
      (λ c. absurd (ground arith), λ c. ap (lookup k) (ap (λ r. r.0) (sym h)))
  apply_targets-IsApplied (name ∷ rest) managers out d h k =
      elim (Option-cases (lookup name managers)) [
        | inr (m, found) ↦
            let updated = ops.update name (intent name) m in
            elim (Option-cases updated.1) [
              | inr (failure, e) ↦
                  absurd
                    (ground (arith, h, apply_updated name rest managers m (some failure) found e))
              | inl e ↦
                  round_first name rest updated.0 managers out d.0
                    (subst (λ o. Managed name o (some updated.0)) (sym found)
                      (updated.0, refl, ground (arith, e)))
                    (apply_targets-IsApplied rest (insert name updated.0 managers) out d.1
                      (sym (apply_updated name rest managers m none found e) ∙ h))
                    k
            ]
        | inl absent ↦
            elim (Result-cases (ops.create name (target_at name targets) (intent name))) [
              | inl (failure, e) ↦
                  absurd
                    (ground (arith, h, apply_created name rest managers (err failure) absent e))
              | inr (m, e) ↦
                  round_first name rest m managers out d.0
                    (subst (λ o. Managed name o (some m)) (sym absent) (m, refl, e))
                    (apply_targets-IsApplied rest (insert name m managers) out d.1
                      (sym (apply_created name rest managers (ok m) absent e) ∙ h))
                    k
            ]
      ]
