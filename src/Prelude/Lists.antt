-- ===== src/Prelude/Lists.antt =====
-- Lists measured by native numbers, membership tests, searches.
use Prim.Native.Nat.{ℕ, suc, ◌+◌}
use mathlib.Core.Path.{◌≡◌, refl}
use mathlib.Core.Bool.{Bool, true, false, ◌||◌}
use mathlib.Core.Option.{Option, none, some}
use mathlib.Core.List.{List, [], ◌∷◌, ◌++◌}
use native.Mathlib.Omega.{arith}
use ssh_forward.Prelude.Tests.{Eq, nat_eq, ◌==◌, if◌then◌else◌}

module _ {ℓ} {A : Type ℓ} where
  abbrev pub length : List A → ℕ
  length [] = 0
  length (x ∷ xs) = suc (length xs)

  pub length-append : (xs ys : List A) → length (xs ++ ys) ≡ length xs + length ys
  length-append [] ys = omega arith
  length-append (x ∷ xs) ys = omega (arith, length-append xs ys)

  abbrev pub or_else : Option A → Option A → Option A
  or_else none b = b
  or_else (some a) b = some a

  abbrev pub is_some : Option A → Bool
  is_some none = false
  is_some (some a) = true

  abbrev pub value_or : Option A → A → A
  value_or none d = d
  value_or (some a) d = a

-- `slices.Contains`
module _ {ℓ} {A : Type ℓ} ⦃e : Eq A⦄ where
  unfoldable pub contains : List A → A → Bool
  contains [] a = false
  contains (x ∷ xs) a = x == a || contains xs a

  pub contains-append :
      (xs ys : List A) (a : A) → contains (xs ++ ys) a ≡ (contains xs a || contains ys a)
  unfolding contains
  contains-append [] ys a = refl
  contains-append (x ∷ xs) ys a = ground (arith, contains-append xs ys a)

-- The first and the last item with a given number.
module _ {ℓ} {A : Type ℓ} (f : A → ℕ) where
  unfoldable pub find_first : ℕ → List A → Option A
  find_first p [] = none
  find_first p (x ∷ xs) = if f x == p then some x else find_first p xs

  unfoldable pub find_last : ℕ → List A → Option A
  find_last p [] = none
  find_last p (x ∷ xs) = or_else (find_last p xs) (if f x == p then some x else none)

  pub find_first_number : (p : ℕ) (xs : List A) (x : A) → find_first p xs ≡ some x → f x ≡ p
  unfolding find_first
  find_first_number p [] x h = ground arith
  find_first_number p (y ∷ xs) x h = ground (arith, find_first_number p xs x)

  pub find_last_number : (p : ℕ) (xs : List A) (x : A) → find_last p xs ≡ some x → f x ≡ p
  unfolding find_last
  find_last_number p [] x h = ground arith
  find_last_number p (y ∷ xs) x h = ground (arith, find_last_number p xs x)
