-- ===== src/Core/Names/Laws.antt =====
-- What `normalizeRuleNames` returns.
use ssh_forward.Core.Names.{first_invalid, normalize_rule_names}
use ssh_forward.Core.Normalize.{IntentError}
use ssh_forward.Core.Types.{direction_eq, key_eq, state_eq, target_eq}
use ssh_forward.Prelude.{
  ==_refl, All, List, Option, Option-cases, Sorted, Str, [], ap, arith, bool_eq, compact, contains,
  contains-compact, contains-sorted, false, inl, inr, leq, nat_eq, none, ok, refl, sort_func,
  sort_func-Sorted, sort_func_of_Sorted, str_compare, str_compare-IsOrder, str_eq, str_leq_antisym,
  sym, true, ◌==◌, ◌∙◌, ◌∷◌, ◌≡◌,
}

-- Every string is below all those that come later.
abbrev pub Ascending : List Str → Type 0
Ascending [] = Unit {0}
Ascending (x ∷ xs) = All (λ y. (leq str_compare x y ≡ true) × ((x == y) ≡ false)) xs × Ascending xs

above-compact :
    (x : Str) (ys : List Str)
    → All (λ y. leq str_compare x y ≡ true) ys
    → All (λ y. leq str_compare x y ≡ true) (compact ys)
unfolding compact
above-compact x [] a = tt
above-compact x (y ∷ []) a = a
above-compact x (y ∷ z ∷ zs) a = ground (arith, above-compact x (z ∷ zs))

strictly_above :
    (x : Str) (ys : List Str)
    → All (λ y. leq str_compare x y ≡ true) ys
    → contains ys x ≡ false
    → All (λ y. (leq str_compare x y ≡ true) × ((x == y) ≡ false)) ys
unfolding contains
strictly_above x [] a h = tt
strictly_above x (y ∷ ys) a h = ((a.0, ground arith), strictly_above x ys a.1 (ground arith))

-- In a sorted list an item that is not the next one does not come later.
not_later :
    (x y : Str) (ys : List Str)
    → Sorted str_compare (x ∷ y ∷ ys)
    → (x == y) ≡ false
    → contains (y ∷ ys) x ≡ false
unfolding contains
not_later x y [] s h = ground arith
not_later x y (z ∷ zs) s h = ground (arith, not_later x z zs, str_leq_antisym x y, s.1.0)

compact-Ascending : (xs : List Str) → Sorted str_compare xs → Ascending (compact xs)
unfolding compact
compact-Ascending [] s = tt
compact-Ascending (x ∷ []) s = (tt, tt)
compact-Ascending (x ∷ y ∷ ys) s = ground (
  arith,
  compact-Ascending (y ∷ ys) s.1,
  strictly_above x (compact (y ∷ ys)),
  above-compact x (y ∷ ys) s.0,
  contains-compact (y ∷ ys) x,
  not_later x y ys s,
)

module _ (valid : Str → Option IntentError) where
  -- Every name passes the check.
  abbrev pub AllValid : List Str → Type 0
  AllValid = All (λ s. valid s ≡ none)

  AllValid-of_first : (vs : List Str) → first_invalid valid vs ≡ none → AllValid vs
  unfolding first_invalid
  AllValid-of_first [] h = tt
  AllValid-of_first (v ∷ vs) h = ground (arith, AllValid-of_first vs)

  first_of_AllValid : (vs : List Str) → AllValid vs → first_invalid valid vs ≡ none
  unfolding first_invalid
  first_of_AllValid [] a = refl
  first_of_AllValid (v ∷ vs) a = ground (arith, first_of_AllValid vs)

  -- Where `normalizeRuleNames` succeeds every name is valid, and the result lists the same names in
  -- strictly ascending order, so without repetition.
  pub normalize_rule_names_lem :
      (vs out : List Str)
      → normalize_rule_names valid vs ≡ ok out
      → AllValid vs × Ascending out × ((s : Str) → contains out s ≡ contains vs s)
  unfolding normalize_rule_names
  normalize_rule_names_lem [] out h = (tt, ground arith, λ s. ground arith)
  normalize_rule_names_lem (v ∷ vs) out h = elim (Option-cases (first_invalid valid (v ∷ vs))) [
    | inr (e, b) ↦ absurd (ground arith)
    | inl b ↦
        let o : compact (sort_func str_compare (v ∷ vs)) ≡ out = ground arith in
        (
          AllValid-of_first (v ∷ vs) b,
          rw (← o)
              (compact-Ascending _ (sort_func-Sorted str_compare str_compare-IsOrder (v ∷ vs))),
          λ s. rw (← o) (
              contains-compact (sort_func str_compare (v ∷ vs)) s
              ∙ contains-sorted str_compare (v ∷ vs) s),
        )
  ]

  -- Valid names are always accepted.
  pub normalize_rule_names_total :
      (vs : List Str)
      → AllValid vs
      → normalize_rule_names valid vs ≡ ok (compact (sort_func str_compare vs))
  unfolding normalize_rule_names
  normalize_rule_names_total [] a = refl
  normalize_rule_names_total (v ∷ vs) a = rw (first_of_AllValid (v ∷ vs) a, normalize_rule_names)

  AllValid-contains :
      (vs : List Str) (s : Str) → AllValid vs → contains vs s ≡ true → valid s ≡ none
  unfolding contains
  AllValid-contains [] s a h = ground arith
  AllValid-contains (v ∷ vs) s a h = ground (arith, AllValid-contains vs s)

  AllValid-of_contains :
      (vs : List Str) → ((s : Str) → contains vs s ≡ true → valid s ≡ none) → AllValid vs
  unfolding contains
  AllValid-of_contains [] k = tt
  AllValid-of_contains (v ∷ vs) k =
      (k v (rw (==_refl v)), AllValid-of_contains vs (λ s h. k s (ground arith)))

  Sorted_of_strictly :
      (x : Str) (ys : List Str)
      → All (λ y. (leq str_compare x y ≡ true) × ((x == y) ≡ false)) ys
      → All (λ y. leq str_compare x y ≡ true) ys
  Sorted_of_strictly x [] a = tt
  Sorted_of_strictly x (y ∷ ys) a = (a.0.0, Sorted_of_strictly x ys a.1)

  Sorted-of_Ascending : (xs : List Str) → Ascending xs → Sorted str_compare xs
  Sorted-of_Ascending [] a = tt
  Sorted-of_Ascending (x ∷ xs) a = (Sorted_of_strictly x xs a.0, Sorted-of_Ascending xs a.1)

  compact_of_Ascending : (xs : List Str) → Ascending xs → compact xs ≡ xs
  unfolding compact
  compact_of_Ascending [] a = refl
  compact_of_Ascending (x ∷ []) a = refl
  compact_of_Ascending (x ∷ y ∷ ys) a = ground (arith, compact_of_Ascending (y ∷ ys) a.1, a.0.0)

  -- Normalising again changes nothing.
  pub normalize_rule_names_idem :
      (vs out : List Str)
      → normalize_rule_names valid vs ≡ ok out
      → normalize_rule_names valid out ≡ ok out
  normalize_rule_names_idem vs [] h = unfold normalize_rule_names in refl
  normalize_rule_names_idem vs (x ∷ out) h =
      let (all, up, same) = normalize_rule_names_lem vs (x ∷ out) h in
      let valid_out : AllValid (x ∷ out) =
        AllValid-of_contains (x ∷ out) (λ s c. AllValid-contains vs s all (sym (same s) ∙ c)) in
      let sorted : sort_func str_compare (x ∷ out) ≡ x ∷ out =
        sort_func_of_Sorted str_compare str_compare-IsOrder (x ∷ out)
          (Sorted-of_Ascending (x ∷ out) up) in
      normalize_rule_names_total (x ∷ out) valid_out
      ∙ ap ok (ap compact sorted ∙ compact_of_Ascending (x ∷ out) up)
