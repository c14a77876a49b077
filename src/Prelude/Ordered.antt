-- ===== src/Prelude/Ordered.antt =====
-- Lists sorted by a number.
use Prim.Native.Nat.{ℕ, compare, Ordering, ◌<◌}
use mathlib.Core.Path.{◌≡◌, refl}
use mathlib.Core.Bool.{true, false}
use mathlib.Core.List.{List, [], ◌∷◌, map}
use native.Mathlib.Omega.{arith}
use ssh_forward.Prelude.Tests.{nat_eq}
use ssh_forward.Prelude.Lists.{contains}
use ssh_forward.Prelude.Sort.{All, Distinct, Sorted, IsOrder, leq}

-- The comparison by a number, as the functions of Go's package `slices` take it.
abbrev pub by_source : {T : Type 0} → (T → ℕ) → T → T → Ordering
by_source source a b = compare (source a) (source b)

-- Strictly increasing numbers.
abbrev pub Increasing : List ℕ → Type 0
Increasing [] = Unit {0}
Increasing (x ∷ xs) = All (λ y. x < y) xs × Increasing xs

pub by_number-IsOrder : {T : Type 0} (source : T → ℕ) → IsOrder (by_source source)
by_number-IsOrder source = record {
  total = λ x y h. ground arith;
  trans = λ x y z h k. ground arith;
}

module _ {T : Type 0} (source : T → ℕ) where
  above_of_Sorted :
      (x : T) (ys : List T)
      → All (λ y. leq (by_source source) x y ≡ true) ys
      → contains (map source ys) (source x) ≡ false
      → All (λ n. source x < n) (map source ys)
  unfolding contains
  above_of_Sorted x [] a h = tt
  above_of_Sorted x (y ∷ ys) a h = (ground arith, above_of_Sorted x ys a.1 (ground arith))

  pub Increasing-of_Sorted :
      (xs : List T)
      → Sorted (by_source source) xs
      → Distinct (map source xs)
      → Increasing (map source xs)
  Increasing-of_Sorted [] s d = tt
  Increasing-of_Sorted (x ∷ xs) s d =
      (above_of_Sorted x xs s.0 d.0, Increasing-of_Sorted xs s.1 d.1)

  above_is_new :
      (n : ℕ) (ys : List T) → All (λ m. n < m) (map source ys) → contains (map source ys) n ≡ false
  unfolding contains
  above_is_new n [] a = refl
  above_is_new n (y ∷ ys) a = ground (arith, above_is_new n ys)

  pub Distinct-of_Increasing : (xs : List T) → Increasing (map source xs) → Distinct (map source xs)
  Distinct-of_Increasing [] i = tt
  Distinct-of_Increasing (x ∷ xs) i =
      (above_is_new (source x) xs i.0, Distinct-of_Increasing xs i.1)

  Sorted_of_above :
      (x : T) (ys : List T)
      → All (λ n. source x < n) (map source ys)
      → All (λ y. leq (by_source source) x y ≡ true) ys
  Sorted_of_above x [] a = tt
  Sorted_of_above x (y ∷ ys) a = (ground arith, Sorted_of_above x ys a.1)

  pub Sorted-of_Increasing :
      (xs : List T) → Increasing (map source xs) → Sorted (by_source source) xs
  Sorted-of_Increasing [] i = tt
  Sorted-of_Increasing (x ∷ xs) i = (Sorted_of_above x xs i.0, Sorted-of_Increasing xs i.1)
