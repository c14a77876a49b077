-- ===== src/View/Shortened.antt =====
-- A column whose cells are shortened.
use mathlib.Core.Path.{ap₂, subst}
use ssh_forward.App.Config.{item_at, published_eq, remembered_eq, set_at}
use ssh_forward.Core.Types.{direction_eq, key_eq, state_eq, target_eq}
use ssh_forward.Prelude.{
  All, Bool-cases, List, Str, [], ap, arith, bool_eq, bytes, if◌then◌else◌, inl, inr, length, ltb,
  map, nat_eq, refl, some, str_eq, suc, sym, zero, ℕ, ◌<◌, ◌∷◌, ◌≡◌, ◌≤◌,
}
use ssh_forward.View.Fits.{IsMeasure, shorten_tail_lem}
use ssh_forward.View.Table.{Ansi, maximum, shorten_column}

pub item_at-set_at :
    {T : Type 0} (default : T) (i : ℕ) (x : T) (xs : List T)
    → i < length xs
    → item_at default i (set_at i x xs) ≡ x
unfolding item_at set_at
item_at-set_at default i x [] h = absurd (omega arith)
item_at-set_at default zero x (y ∷ ys) h = refl
item_at-set_at default (suc i) x (y ∷ ys) h = item_at-set_at default i x ys (omega arith)

pub length-set_at : {T : Type 0} (i : ℕ) (x : T) (xs : List T) → length (set_at i x xs) ≡ length xs
unfolding set_at
length-set_at i x [] = refl
length-set_at zero x (y ∷ ys) = refl
length-set_at (suc i) x (y ∷ ys) = ap suc (length-set_at i x ys)

abbrev pub lengths : List (List Str) → List ℕ
lengths rows = map (λ (row : List Str). length row) rows

module _ (ansi : Ansi) where
  -- The cell of a row in the column takes at most this width, where the row has the column.
  abbrev pub IsWithin : ℕ → ℕ → List Str → Type 0
  IsWithin cwd width row = cwd < length row → ansi.string_width (item_at [] cwd row) ≤ width

  module _ (m : IsMeasure ansi) where
    pub shorten_column_fits :
        (cwd width : ℕ) (rows : List (List Str))
        → (out : List (List Str)) × (shorten_column ansi cwd width rows ≡ some out)
          × (lengths out ≡ lengths rows)
          × All (IsWithin cwd (maximum width 1)) out
    unfolding shorten_column
    shorten_column_fits cwd width [] = ([], refl, refl, tt)
    shorten_column_fits cwd width (row ∷ rows) =
        let (cell, e, narrow, _) = shorten_tail_lem ansi m (item_at [] cwd row) width in
        let (later, f, same, all_narrow) = shorten_column_fits cwd width rows in
        (
          set_at cwd cell row ∷ later,
          rw (shorten_column, e, f) refl,
          ap₂ (λ n ns. n ∷ ns) (length-set_at cwd cell row) same,
          (
            λ inside.
                subst (λ (s : Str). ansi.string_width s ≤ maximum width 1)
                  (sym (item_at-set_at [] cwd cell row (rw (← length-set_at cwd cell row) inside)))
                  narrow,
            all_narrow,
          ),
        )

    pub length-titles :
        (width cwd : ℕ) (headers : List Str)
        → length (
            if ltb width (ansi.string_width (item_at [] cwd headers))
            then set_at cwd (bytes "CWD") headers
            else headers)
          ≡ length headers
    length-titles width cwd headers =
        elim (Bool-cases (ltb width (ansi.string_width (item_at [] cwd headers)))) [
          | inl long ↦ rw long (length-set_at cwd (bytes "CWD") headers)
          | inr short ↦ rw short refl
        ]
