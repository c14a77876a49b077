-- ===== src/Prelude/Assoc.antt =====
-- Go's maps as association lists. A `range` loop visits the entries in the order of the list.
use mathlib.Core.Path.{◌≡◌, refl, subst}
use mathlib.Core.Bool.{Bool, false}
use mathlib.Core.Logic.{inl, inr}
use mathlib.Core.Option.{Option, none, some}
use mathlib.Core.List.{List, [], ◌∷◌, map}
use native.Mathlib.Omega.{arith}
use ssh_forward.Prelude.Tests.{Bool-cases, Eq, ◌==◌, if◌then◌else◌}
use ssh_forward.Prelude.Lists.{contains, is_some}
use ssh_forward.Prelude.Sort.{All}

abbrev pub Map {ℓ} : Type ℓ → Type ℓ → Type ℓ
Map K V = List (K × V)

module _ {ℓ} {K V : Type ℓ} where
  abbrev pub keys : Map K V → List K
  keys = map (λ e. e.0)

  abbrev pub values : Map K V → List V
  values = map (λ e. e.1)

module _ {ℓ} {K V : Type ℓ} ⦃e : Eq K⦄ where
  unfoldable pub lookup : K → Map K V → Option V
  lookup k [] = none
  lookup k ((j, v) ∷ rest) = let later = lookup k rest in if j == k then some v else later

  -- `_, found := m[k]`
  abbrev pub has : K → Map K V → Bool
  has k m = is_some (lookup k m)

  -- `m[k] = v`
  unfoldable pub insert : K → V → Map K V → Map K V
  insert k v [] = (k, v) ∷ []
  insert k v (entry ∷ rest) =
      let later = insert k v rest in if entry.0 == k then (k, v) ∷ rest else entry ∷ later

  -- `delete(m, k)`
  unfoldable pub delete : K → Map K V → Map K V
  delete k [] = []
  delete k ((j, w) ∷ m) = let rest = delete k m in if j == k then rest else (j, w) ∷ rest

  -- `for k := range m { if test(k) { delete(m, k) } }`
  unfoldable pub delete_if : (K → Bool) → Map K V → Map K V
  delete_if test [] = []
  delete_if test ((j, w) ∷ m) =
      let rest = delete_if test m in if test j then rest else (j, w) ∷ rest

  pub lookup-insert :
      (k j : K) (v : V) (m : Map K V)
      → lookup j (insert k v m) ≡ (if k == j then some v else lookup j m)
  unfolding insert lookup
  lookup-insert put asked v [] = refl
  lookup-insert put asked v (entry ∷ rest) = ground (arith, lookup-insert put asked v rest)

  pub lookup-delete :
      (k j : K) (m : Map K V) → lookup j (delete k m) ≡ (if k == j then none else lookup j m)
  unfolding lookup delete
  lookup-delete k j [] = ground arith
  lookup-delete k j ((i, w) ∷ m) = ground (arith, lookup-delete k j m)

  pub lookup-delete_if :
      (test : K → Bool) (j : K) (m : Map K V)
      → lookup j (delete_if test m) ≡ (if test j then none else lookup j m)
  unfolding lookup delete_if
  lookup-delete_if test j [] = ground arith
  lookup-delete_if test j ((i, w) ∷ m) = ground (arith, lookup-delete_if test j m)

  pub contains-keys : (k : K) (m : Map K V) → contains (keys m) k ≡ has k m
  unfolding lookup contains
  contains-keys k [] = refl
  contains-keys k ((i, w) ∷ m) = ground (arith, contains-keys k m)

  -- No key occurs twice, as in every map of Go.
  abbrev pub Unique : Map K V → Type 0
  Unique [] = Unit {0}
  Unique ((k, v) ∷ m) = (has k m ≡ false) × Unique m

  pub insert-Unique : (k : K) (v : V) (m : Map K V) → Unique m → Unique (insert k v m)
  unfolding insert lookup
  insert-Unique k v [] u = (refl, tt)
  insert-Unique k v ((j, w) ∷ m) u = ground (arith, insert-Unique k v m u.1, lookup-insert k j v m)

  pub delete-Unique : (k : K) (m : Map K V) → Unique m → Unique (delete k m)
  unfolding delete
  delete-Unique k [] u = tt
  delete-Unique k ((j, w) ∷ m) u = ground (arith, delete-Unique k m u.1, lookup-delete k j m)

  module _ (P : K × V → Type ℓ) where
    pub All-insert : (k : K) (v : V) (m : Map K V) → P (k, v) → All P m → All P (insert k v m)
    unfolding insert
    All-insert k v [] now a = (now, tt)
    All-insert k v (entry ∷ rest) now a = elim (Bool-cases (entry.0 == k)) [
      | inl same ↦ rw same (now, a.1)
      | inr other ↦ rw other (a.0, All-insert k v rest now a.1)
    ]

    pub All-lookup : (k : K) (v : V) (m : Map K V) → All P m → lookup k m ≡ some v → P (k, v)
    unfolding lookup
    All-lookup k v [] a h = absurd (ground arith)
    All-lookup k v ((j, w) ∷ rest) a h = elim (e.dec j k) [
      | yes same ↦ subst P (ground arith) a.0
      | no other ↦ All-lookup k v rest a.1 (ground arith)
    ]
