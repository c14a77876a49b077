-- ===== src/View/Kinds.antt =====
-- In which section a forward is shown.
use ssh_forward.Core.Types.{
  ForwardState, ForwardState-discrete, ForwardStatus, direction_eq, key_eq, state_eq, target_eq,
}
use ssh_forward.Prelude.{
  Bool, Bool-discrete, List, [], arith, bool_eq, false, if◌then◌else◌, nat_eq, not, refl, str_eq,
  true, ℕ, ◌&&◌, ◌++◌, ◌+◌, ◌==◌, ◌∷◌, ◌≡◌,
}
use ssh_forward.View.Sections.{is_published, section_forwards, shown_kinds}

-- How many items pass a test.
unfoldable pub count : {A : Type 0} → (A → Bool) → List A → ℕ
count test [] = 0
count test (x ∷ xs) = let later = count test xs in if test x then later + 1 else later

-- The forwards of all sections, section by section.
unfoldable pub all_shown : List (ForwardState × Bool) → List ForwardStatus → List ForwardStatus
all_shown [] forwards = []
all_shown ((state, published) ∷ rest) forwards =
    section_forwards state published forwards ++ all_shown rest forwards

-- Whether a forward has one of the states that workers report.
abbrev pub has_state : ForwardStatus → Bool
has_state f = not (f.state == ForwardState.unset)

pub count-append :
    {A : Type 0} (test : A → Bool) (xs ys : List A)
    → count test (xs ++ ys) ≡ count test xs + count test ys
unfolding count
count-append test [] ys = omega arith
count-append test (x ∷ xs) ys = ground (arith, count-append test xs ys)

-- In how many sections a forward of this state and direction is counted, if it passes the test.
unfoldable hits : ForwardState → Bool → Bool → List (ForwardState × Bool) → ℕ
hits state published passes [] = 0
hits state published passes ((s, p) ∷ rest) =
    (if (state == s && published == p) && passes then 1 else 0) + hits state published passes rest

hits-shown_kinds :
    (state : ForwardState) (published passes : Bool)
    → hits state published passes shown_kinds
      ≡ (if passes && not (state == ForwardState.unset) then 1 else 0)
unfolding hits ForwardState-discrete Bool-discrete
hits-shown_kinds ForwardState.active true true = refl
hits-shown_kinds ForwardState.active true false = refl
hits-shown_kinds ForwardState.active false true = refl
hits-shown_kinds ForwardState.active false false = refl
hits-shown_kinds ForwardState.starting true true = refl
hits-shown_kinds ForwardState.starting true false = refl
hits-shown_kinds ForwardState.starting false true = refl
hits-shown_kinds ForwardState.starting false false = refl
hits-shown_kinds ForwardState.failed true true = refl
hits-shown_kinds ForwardState.failed true false = refl
hits-shown_kinds ForwardState.failed false true = refl
hits-shown_kinds ForwardState.failed false false = refl
hits-shown_kinds ForwardState.unset true true = refl
hits-shown_kinds ForwardState.unset true false = refl
hits-shown_kinds ForwardState.unset false true = refl
hits-shown_kinds ForwardState.unset false false = refl

module _ (test : ForwardStatus → Bool) where
  count-section_forwards :
      (state : ForwardState) (published : Bool) (f : ForwardStatus) (rest : List ForwardStatus)
      → count test (section_forwards state published (f ∷ rest))
        ≡ count test (section_forwards state published rest)
          + (if (f.state == state && is_published f == published) && test f then 1 else 0)
  unfolding section_forwards count
  count-section_forwards state published f rest = ground arith

  count-all_shown :
      (kinds : List (ForwardState × Bool)) (f : ForwardStatus) (rest : List ForwardStatus)
      → count test (all_shown kinds (f ∷ rest))
        ≡ count test (all_shown kinds rest) + hits f.state (is_published f) (test f) kinds
  unfolding all_shown hits count
  count-all_shown [] f rest = omega arith
  count-all_shown ((s, p) ∷ kinds) f rest = omega (
    arith,
    count-append test (section_forwards s p (f ∷ rest)) (all_shown kinds (f ∷ rest)),
    count-append test (section_forwards s p rest) (all_shown kinds rest),
    count-section_forwards s p f rest,
    count-all_shown kinds f rest,
  )

  none_shown : (kinds : List (ForwardState × Bool)) → all_shown kinds [] ≡ []
  unfolding all_shown section_forwards
  none_shown [] = refl
  none_shown ((s, p) ∷ kinds) = none_shown kinds

  pub count-all_shown_kinds :
      (forwards : List ForwardStatus)
      → count test (all_shown shown_kinds forwards) ≡ count (λ f. test f && has_state f) forwards
  unfolding count
  count-all_shown_kinds [] = rw (none_shown shown_kinds) refl
  count-all_shown_kinds (f ∷ rest) = ground (
    arith,
    count-all_shown shown_kinds f rest,
    hits-shown_kinds f.state (is_published f) (test f),
    count-all_shown_kinds rest,
  )
