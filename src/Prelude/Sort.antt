-- ===== src/Prelude/Sort.antt =====
-- `slices.SortFunc` as insertion sort, and what sorting keeps.
use Prim.Native.Nat.{Ordering}
use mathlib.Core.Path.{◌≡◌, refl, sym, ap, subst, ◌∙◌}
use mathlib.Core.Bool.{Bool, true, false, ◌||◌}
use mathlib.Core.List.{List, [], ◌∷◌, map, map-id, Perm}
use mathlib.Core.List.Perm
use native.Mathlib.Omega.{arith}
use ssh_forward.Prelude.Tests.{Eq, ◌==◌, if◌then◌else◌}
use ssh_forward.Prelude.Lists.{contains}

abbrev pub All {ℓ κ} : {A : Type ℓ} → (A → Type κ) → List A → Type κ
All P [] = Unit
All P (x ∷ xs) = P x × All P xs

-- No item occurs twice.
abbrev pub Distinct {ℓ} : {A : Type ℓ} ⦃e : Eq A⦄ → List A → Type 0
Distinct [] = Unit {0}
Distinct (x ∷ xs) = (contains xs x ≡ false) × Distinct xs

pub All-contains {ℓ κ} :
    {A : Type ℓ} ⦃e : Eq A⦄ (P : A → Type κ) (xs : List A) (a : A)
    → All P xs
    → contains xs a ≡ true
    → P a
unfolding contains
All-contains P [] a ps c = ground arith
All-contains ⦃e⦄ P (x ∷ xs) a ps c = elim (e.dec x a) [
  | yes same ↦ rw (sym same) ps.0
  | no other ↦ All-contains P xs a ps.1 (ground arith)
]

-- The sign of a comparison function's result.
abbrev pub leq {ℓ} : {A : Type ℓ} → (A → A → Ordering) → A → A → Bool
leq cmp a b = elim (cmp a b) [ Ordering.gt ↦ false | _ ↦ true ]

module _ {ℓ} {A : Type ℓ} (cmp : A → A → Ordering) where
  unfoldable pub insert_sorted : A → List A → List A
  insert_sorted x [] = x ∷ []
  insert_sorted x (y ∷ ys) = if leq cmp x y then x ∷ y ∷ ys else y ∷ insert_sorted x ys

  unfoldable pub sort_func : List A → List A
  unfolding insert_sorted
  sort_func [] = []
  sort_func (x ∷ xs) = insert_sorted x (sort_func xs)

  abbrev pub Sorted : List A → Type 0
  Sorted [] = Unit {0}
  Sorted (x ∷ xs) = All (λ y. leq cmp x y ≡ true) xs × Sorted xs

  insert_sorted-perm : (x : A) (xs : List A) → Perm (insert_sorted x xs) (x ∷ xs)
  unfolding insert_sorted
  insert_sorted-perm x [] = Perm.refl (x ∷ [])
  insert_sorted-perm x (y ∷ ys) = ground (
    arith,
    Perm.refl (x ∷ y ∷ ys),
    Perm.trans (Perm.cons y (insert_sorted-perm x ys)) (Perm.swap x y ys),
  )

  pub sort_func-perm : (xs : List A) → Perm (sort_func xs) xs
  unfolding sort_func
  sort_func-perm [] = Perm.refl []
  sort_func-perm (x ∷ xs) =
      Perm.trans (insert_sorted-perm x (sort_func xs)) (Perm.cons x (sort_func-perm xs))

  module _ {κ} (P : A → Type κ) where
    All-insert_sorted : (x : A) (xs : List A) → P x → All P xs → All P (insert_sorted x xs)
    unfolding insert_sorted
    All-insert_sorted x [] p ps = (p, ps)
    All-insert_sorted x (y ∷ ys) p ps = ground (arith, All-insert_sorted x ys p ps.1)

    pub All-sort_func : (xs : List A) → All P xs → All P (sort_func xs)
    unfolding sort_func
    All-sort_func [] ps = ps
    All-sort_func (x ∷ xs) ps = All-insert_sorted x (sort_func xs) ps.0 (All-sort_func xs ps.1)

  module _ {B : Type 0} ⦃e : Eq B⦄ (f : A → B) where
    contains-insert_sorted :
        (x : A) (xs : List A) (b : B)
        → contains (map f (insert_sorted x xs)) b ≡ (f x == b || contains (map f xs) b)
    unfolding insert_sorted contains
    contains-insert_sorted x [] b = refl
    contains-insert_sorted x (y ∷ ys) b = ground (arith, contains-insert_sorted x ys b)

    pub contains-sort_func :
        (xs : List A) (b : B) → contains (map f (sort_func xs)) b ≡ contains (map f xs) b
    unfolding sort_func contains
    contains-sort_func [] b = refl
    contains-sort_func (x ∷ xs) b =
        ground (arith, contains-insert_sorted x (sort_func xs) b, contains-sort_func xs b)

    Distinct-insert_sorted :
        (x : A) (xs : List A)
        → contains (map f xs) (f x) ≡ false
        → Distinct (map f xs)
        → Distinct (map f (insert_sorted x xs))
    unfolding insert_sorted contains
    Distinct-insert_sorted x [] h d = (refl, tt)
    Distinct-insert_sorted x (y ∷ ys) h d =
        ground (arith, Distinct-insert_sorted x ys, contains-insert_sorted x ys (f y))

    pub Distinct-sort_func : (xs : List A) → Distinct (map f xs) → Distinct (map f (sort_func xs))
    unfolding sort_func
    Distinct-sort_func [] d = tt
    Distinct-sort_func (x ∷ xs) d =
        Distinct-insert_sorted x (sort_func xs) (contains-sort_func xs (f x) ∙ d.0)
          (Distinct-sort_func xs d.1)

module _ {A : Type 0} ⦃e : Eq A⦄ (cmp : A → A → Ordering) (xs : List A) where
  pub contains-sorted : (k : A) → contains (sort_func cmp xs) k ≡ contains xs k
  contains-sorted k =
      ap (λ ys. contains ys k) (sym (map-id (sort_func cmp xs)))
      ∙ contains-sort_func cmp (λ (a : A). a) xs k
      ∙ ap (λ ys. contains ys k) (map-id xs)

  pub Distinct-sorted : Distinct xs → Distinct (sort_func cmp xs)
  Distinct-sorted d =
      subst Distinct (map-id (sort_func cmp xs))
        (Distinct-sort_func cmp (λ (a : A). a) xs (subst Distinct (sym (map-id xs)) d))

-- What makes a comparison function an order.
pub record IsOrder {ℓ} {A : Type ℓ} (cmp : A → A → Ordering) : Type ℓ where
  pub total : (x y : A) → leq cmp x y ≡ false → leq cmp y x ≡ true
  pub trans : (x y z : A) → leq cmp x y ≡ true → leq cmp y z ≡ true → leq cmp x z ≡ true

module _ {ℓ} {A : Type ℓ} (cmp : A → A → Ordering) (o : IsOrder cmp) where
  All-leq :
      (x y : A) (ys : List A)
      → leq cmp x y ≡ true
      → All (λ z. leq cmp y z ≡ true) ys
      → All (λ z. leq cmp x z ≡ true) ys
  All-leq x y [] h ps = tt
  All-leq x y (z ∷ zs) h ps = (o.trans x y z h ps.0, All-leq x y zs h ps.1)

  insert_sorted-Sorted : (x : A) (xs : List A) → Sorted cmp xs → Sorted cmp (insert_sorted cmp x xs)
  unfolding insert_sorted
  insert_sorted-Sorted x [] s = (tt, tt)
  insert_sorted-Sorted x (y ∷ ys) s = ground (
    arith,
    All-leq x y ys,
    o.total x y,
    insert_sorted-Sorted x ys s.1,
    All-insert_sorted cmp (λ z. leq cmp y z ≡ true) x ys,
  )

  pub sort_func-Sorted : (xs : List A) → Sorted cmp (sort_func cmp xs)
  unfolding sort_func
  sort_func-Sorted [] = tt
  sort_func-Sorted (x ∷ xs) = insert_sorted-Sorted x (sort_func cmp xs) (sort_func-Sorted xs)

  -- A sorted list is left as it is.
  pub sort_func_of_Sorted : (xs : List A) → Sorted cmp xs → sort_func cmp xs ≡ xs
  unfolding sort_func insert_sorted
  sort_func_of_Sorted [] s = refl
  sort_func_of_Sorted (x ∷ []) s = refl
  sort_func_of_Sorted (x ∷ y ∷ ys) s = rw (sort_func_of_Sorted (y ∷ ys) s.1) (ground arith)
