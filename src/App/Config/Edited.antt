-- ===== src/App/Config/Edited.antt =====
-- An edit of a list of rules, key by key.
use ssh_forward.App.Config.{delete_at, edit_rule, index_func, index_of, item_at, set_at}
use ssh_forward.Core.Types.{direction_eq, key_eq, state_eq, target_eq}
use ssh_forward.Prelude.{
  Distinct, Eq, List, Option, Option-cases, [], arith, bool_eq, contains, false, if◌then◌else◌, inl,
  inr, is_some, map, nat_eq, none, or_else, refl, some, str_eq, suc, true, value_or, zero, ℕ, ◌++◌,
  ◌==◌, ◌↔◌, ◌∷◌, ◌≡◌,
}

module _ {T K : Type 0} ⦃et : Eq T⦄ ⦃ek : Eq K⦄ (key_of : T → K) where
  -- The rule that stands for a key: the first one.
  unfoldable pub rule_at : K → List T → Option T
  rule_at k [] = none
  rule_at k (x ∷ xs) = let later = rule_at k xs in if key_of x == k then some x else later

  rule_at-absent : (k : K) (xs : List T) → index_of key_of k xs ≡ none → rule_at k xs ≡ none
  unfolding rule_at index_func
  rule_at-absent k [] h = refl
  rule_at-absent k (x ∷ xs) h = ground (arith, rule_at-absent k xs)

  rule_at-item_at :
      (v : T) (k : K) (xs : List T) (i : ℕ)
      → index_of key_of k xs ≡ some i
      → rule_at k xs ≡ some (item_at v i xs)
  unfolding rule_at index_func item_at
  rule_at-item_at v k [] i h = absurd (ground arith)
  rule_at-item_at v k (x ∷ xs) zero h = ground (arith, rule_at-item_at v k xs)
  rule_at-item_at v k (x ∷ xs) (suc i) h = ground (arith, rule_at-item_at v k xs i)

  rule_at-append :
      (k : K) (xs : List T) (v : T)
      → rule_at k (xs ++ v ∷ []) ≡ or_else (rule_at k xs) (if key_of v == k then some v else none)
  unfolding rule_at
  rule_at-append k [] v = refl
  rule_at-append k (x ∷ xs) v = ground (arith, rule_at-append k xs v)

  rule_at-set_at :
      (k : K) (v : T) (xs : List T) (i : ℕ)
      → index_of key_of (key_of v) xs ≡ some i
      → rule_at k (set_at i v xs) ≡ (if key_of v == k then some v else rule_at k xs)
  unfolding rule_at index_func set_at
  rule_at-set_at k v [] i h = absurd (ground arith)
  rule_at-set_at k v (x ∷ xs) zero h = ground arith
  rule_at-set_at k v (x ∷ xs) (suc i) h = ground (arith, rule_at-set_at k v xs i)

  rule_at-other : (k : K) (xs : List T) → contains (map key_of xs) k ≡ false → rule_at k xs ≡ none
  unfolding rule_at contains
  rule_at-other k [] h = refl
  rule_at-other k (x ∷ xs) h = ground (arith, rule_at-other k xs)

  rule_at-delete_at :
      (k j : K) (xs : List T) (i : ℕ)
      → Distinct (map key_of xs)
      → index_of key_of j xs ≡ some i
      → rule_at k (delete_at i xs) ≡ (if j == k then none else rule_at k xs)
  unfolding rule_at index_func delete_at
  rule_at-delete_at k j [] i d h = absurd (ground arith)
  rule_at-delete_at k j (x ∷ xs) zero d h = ground (arith, rule_at-other j xs, d.0)
  rule_at-delete_at k j (x ∷ xs) (suc i) d h = ground (arith, rule_at-delete_at k j xs i d.1)

  -- Adding a rule puts it in the place of the one with its key, or behind all, and leaves every other
  -- key alone; it changes nothing exactly when the rule already stands there.
  pub edit_rule_adds :
      (items : List T) (value : T) (k : K)
      → (rule_at k (edit_rule key_of items value true).0
          ≡ (if key_of value == k then some value else rule_at k items))
        × (((edit_rule key_of items value true).2 ≡ false)
            ↔ (rule_at (key_of value) items ≡ some value))
  unfolding edit_rule
  edit_rule_adds items value k = elim (Option-cases (index_of key_of (key_of value) items)) [
    | inl e ↦
        let absent = rule_at-absent (key_of value) items e in
        (
          ground (arith, rule_at-append k items value, absent),
          (λ h. absurd (ground arith), λ h. absurd (ground arith)),
        )
    | inr (i, e) ↦
        let old = rule_at-item_at value (key_of value) items i e in
        (
          ground (arith, rule_at-set_at k value items i e, old),
          (λ h. ground (arith, old), λ h. ground (arith, old)),
        )
  ]

  -- Removing a rule takes away the one with its key and leaves every other key alone, where no two
  -- rules share a key; it returns the rule that was there, and says whether there was one.
  pub edit_rule_removes :
      (items : List T) (value : T) (k : K)
      → Distinct (map key_of items)
      → (rule_at k (edit_rule key_of items value false).0
          ≡ (if key_of value == k then none else rule_at k items))
        × ((edit_rule key_of items value false).1 ≡ value_or (rule_at (key_of value) items) value)
        × ((edit_rule key_of items value false).2 ≡ is_some (rule_at (key_of value) items))
  unfolding edit_rule
  edit_rule_removes items value k d = elim (Option-cases (index_of key_of (key_of value) items)) [
    | inl e ↦
        let absent = rule_at-absent (key_of value) items e in
        (ground (arith, absent), ground (arith, absent), ground (arith, absent))
    | inr (i, e) ↦
        let old = rule_at-item_at value (key_of value) items i e in
        (
          ground (arith, rule_at-delete_at k (key_of value) items i d e),
          ground (arith, old),
          ground (arith, old),
        )
  ]
