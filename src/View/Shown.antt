-- ===== src/View/Shown.antt =====
-- Which rows the tables of a status have.
use mathlib.Core.Path.{ap₂}
use ssh_forward.Core.Types.{
  ForwardState, ForwardStatus, Listener, Status, direction_eq, key_eq, state_eq, target_eq,
}
use ssh_forward.Prelude.{
  Bool, Bool-cases, List, Map, Str, [], arith, bool_eq, contains, eq_of_==, if◌then◌else◌, inl, inr,
  map, nat_eq, not, refl, str_eq, sym, true, ℕ, ◌&&◌, ◌++◌, ◌+◌, ◌==◌, ◌∙◌, ◌∷◌, ◌≡◌,
}
use ssh_forward.View.Kinds.{all_shown, count, count-all_shown_kinds, count-append, has_state}
use ssh_forward.View.Sections.{
  Section, available_listeners, available_of, available_row, available_section, forward_row,
  forward_section, forward_sections, forwarded_ports, ignored_listener, is_published,
  listeners_by_port, section_forwards, shown_kinds, tables,
}

-- The rows of all tables, one after the other.
unfoldable pub rows_of : List Section → List (List Str)
rows_of [] = []
rows_of (s ∷ rest) = s.rows ++ rows_of rest

count-rows_of :
    (test : List Str → Bool) (xs ys : List Section)
    → count test (rows_of (xs ++ ys)) ≡ count test (rows_of xs) + count test (rows_of ys)
unfolding rows_of count
count-rows_of test [] ys = omega arith
count-rows_of test (x ∷ xs) ys = omega (
  arith,
  count-append test x.rows (rows_of (xs ++ ys)),
  count-append test x.rows (rows_of xs),
  count-rows_of test xs ys,
)

-- The row that a forward has in the section of its own state and direction.
abbrev pub own_row : Bool → Map ℕ Listener → ForwardStatus → List Str
own_row hyperlinks listeners f =
    forward_row listeners (is_published f) (f.state == ForwardState.failed)
      (hyperlinks && f.state == ForwardState.active) f

module _ (hyperlinks : Bool) (listeners : Map ℕ Listener) (test : List Str → Bool) where
  -- The row that a forward has in the section of this state and direction.
  abbrev row_in : ForwardState → Bool → ForwardStatus → List Str
  row_in state published =
      forward_row listeners published (state == ForwardState.failed)
        (hyperlinks && state == ForwardState.active)

  row_in-own :
      (state : ForwardState) (published : Bool) (f : ForwardStatus)
      → (f.state == state && is_published f == published) ≡ true
      → row_in state published f ≡ own_row hyperlinks listeners f
  row_in-own state published f h =
      let e1 : f.state ≡ state = eq_of_== f.state state (ground arith) in
      let e2 : is_published f ≡ published = eq_of_== (is_published f) published (ground arith) in
      ap₂
        (λ s p.
          forward_row listeners p (s == ForwardState.failed)
            (hyperlinks && s == ForwardState.active) f)
        (sym e1) (sym e2)

  count-section_rows :
      (state : ForwardState) (published : Bool) (forwards : List ForwardStatus)
      → count test (map (row_in state published) (section_forwards state published forwards))
        ≡ count
            (λ f. test (own_row hyperlinks listeners f))
            (section_forwards state published forwards)
  unfolding count section_forwards
  count-section_rows state published [] = refl
  count-section_rows state published (f ∷ rest) =
      let later = count-section_rows state published rest in
      elim (Bool-cases (f.state == state && is_published f == published)) [
        | inr other ↦ rw other later
        | inl fits ↦ rw fits (
            ap₂ (λ (row : List Str) n. if test row then n + 1 else n)
              (row_in-own state published f fits) later)
      ]

  abbrev section_of : ForwardState → Bool → List ForwardStatus → Section
  section_of = forward_section hyperlinks listeners

  -- A section is left out where it has no forwards, and otherwise stands before the later ones.
  count-section :
      (state : ForwardState) (published : Bool) (later : List Section) (shown : List ForwardStatus)
      → count test (
          rows_of
            (elim shown [ [] ↦ later | f ∷ fs ↦ section_of state published (f ∷ fs) ∷ later ]))
        ≡ count test (map (row_in state published) shown) + count test (rows_of later)
  unfolding forward_section rows_of count
  count-section state published later [] = omega arith
  count-section state published later (f ∷ fs) =
      count-append test (map (row_in state published) (f ∷ fs)) (rows_of later)

  count-forward_sections :
      (forwards : List ForwardStatus) (kinds : List (ForwardState × Bool))
      → count test (rows_of (forward_sections hyperlinks listeners forwards kinds))
        ≡ count (λ f. test (own_row hyperlinks listeners f)) (all_shown kinds forwards)
  unfolding forward_sections all_shown rows_of count
  count-forward_sections forwards [] = refl
  count-forward_sections forwards ((state, published) ∷ kinds) =
      let shown = section_forwards state published forwards in
      let later = forward_sections hyperlinks listeners forwards kinds in
      count-section state published later shown
      ∙ ap₂ (λ (m n : ℕ). m + n) (count-section_rows state published forwards)
          (count-forward_sections forwards kinds)
      ∙ sym (
          count-append (λ f. test (own_row hyperlinks listeners f)) shown
            (all_shown kinds forwards))

count-available :
    (test : List Str → Bool) (forwarded : List ℕ) (ignored : List Str) (ls : List Listener)
    → count test (map available_row (available_listeners forwarded ignored ls))
      ≡ count
          (λ l.
            not (contains forwarded l.port)
            && not (ignored_listener ignored l)
            && test (available_row l))
          ls
unfolding count available_listeners
count-available test forwarded ignored [] = refl
count-available test forwarded ignored (l ∷ ls) =
    ground (arith, count-available test forwarded ignored ls)

count-tables :
    (test : List Str → Bool) (shown : List Section) (available : List Listener)
    → count test (
        rows_of (elim available [ [] ↦ shown | l ∷ ls ↦ shown ++ available_section (l ∷ ls) ∷ [] ]))
      ≡ count test (rows_of shown) + count test (map available_row available)
unfolding available_section rows_of count
count-tables test shown [] = omega arith
count-tables test shown (l ∷ ls) = omega (
  arith,
  count-rows_of test shown (available_section (l ∷ ls) ∷ []),
  count-append test (map available_row (l ∷ ls)) [],
)

-- The tables of a status show every forward that has a state in one row, the one of its own state and
-- direction, and every listener that is neither forwarded nor ignored in one row, and nothing else: of
-- the rows that pass any test there are as many in all tables as such forwards and listeners.
pub count_shown :
    (hyperlinks : Bool) (test : List Str → Bool) (s : Status)
    → count test (rows_of (tables hyperlinks s))
      ≡ count
          (λ f. test (own_row hyperlinks (listeners_by_port [] s.listeners) f) && has_state f)
          s.forwards
        + count
            (λ l.
              not (contains (forwarded_ports s.forwards) l.port)
              && not (ignored_listener s.ignored_apps l)
              && test (available_row l))
            s.listeners
unfolding tables
count_shown hyperlinks test s =
    let listeners = listeners_by_port [] s.listeners in
    let shown = forward_sections hyperlinks listeners s.forwards shown_kinds in
    count-tables test shown (available_of s)
    ∙ ap₂ (λ (m n : ℕ). m + n)
        (count-forward_sections hyperlinks listeners test s.forwards shown_kinds
          ∙ count-all_shown_kinds (λ f. test (own_row hyperlinks listeners f)) s.forwards)
        (count-available test (forwarded_ports s.forwards) s.ignored_apps s.listeners)
