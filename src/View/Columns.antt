-- ===== src/View/Columns.antt =====
-- The columns of a section within the width of the terminal, and the text of all sections.
use ssh_forward.App.Config.{index_func, item_at, published_eq, remembered_eq, set_at}
use ssh_forward.Core.Types.{Status, direction_eq, key_eq, state_eq, target_eq}
use ssh_forward.Prelude.{
  Bool-cases, List, Option, Option-cases, Str, [], arith, bool_eq, bytes, if◌then◌else◌, inl, inr,
  is_some, length, ltb, nat_eq, none, refl, some, str_eq, true, ℕ, ◌*◌, ◌+◌, ◌-◌, ◌==◌, ◌∷◌, ◌≡◌,
}
use ssh_forward.View.Fits.{IsMeasure, shorten_tail_lem}
use ssh_forward.View.Render.{render, render_sections}
use ssh_forward.View.Sections.{Section, tables}
use ssh_forward.View.Shortened.{shorten_column_fits}
use ssh_forward.View.Table.{
  Ansi, Options, column_gap, column_widths, fit_columns, fitted_width, other_widths, render_section,
  shorten_column, working_directory,
}

value_of : {A : Type 0} (o : Option A) → is_some o ≡ true → (x : A) × (o ≡ some x)
value_of none h = absurd (ground arith)
value_of (some x) h = (x, refl)

module _ (ansi : Ansi) where
  -- What the columns take beside that of the working directories, with the gaps.
  abbrev pub fixed_width : ℕ → List Str → List (List Str) → ℕ
  fixed_width cwd headers rows =
      column_gap * (length headers - 1) + other_widths cwd (column_widths ansi headers rows)

  module _ (m : IsMeasure ansi) where
    shorten_column_first :
        (cwd width : ℕ) (row : List Str) (rows : List (List Str))
        → (first : List Str) × (later : List (List Str)) × (shorten_column ansi cwd width
              (row ∷ rows)
            ≡ some (first ∷ later))
    unfolding shorten_column
    shorten_column_first cwd width row rows =
        let (cell, e, _, _) = shorten_tail_lem ansi m (item_at [] cwd row) width in
        let (later, f, _, _) = shorten_column_fits ansi m cwd width rows in
        (set_at cwd cell row, later, rw (shorten_column, e, f) refl)

    fit_columns_total :
        (limit : ℕ) (headers : List Str) (rows : List (List Str))
        → (first : List Str) × (later : List (List Str)) × (widths : List ℕ) × (fit_columns ansi
              limit headers rows
            ≡ some (first ∷ later, widths))
    unfolding fitted_width fit_columns column_widths set_at
    fit_columns_total limit headers rows =
        elim (Option-cases (index_func (λ h. h == working_directory) headers)) [
          | inl none_found ↦
              (headers, rows, column_widths ansi headers rows, rw (fit_columns, none_found) refl)
          | inr (cwd, found) ↦ elim (Bool-cases (limit == 0)) [
            | inl unlimited ↦ (
              headers,
              rows,
              column_widths ansi headers rows,
              rw (fit_columns, found, unlimited) refl,
            )
            | inr bounded ↦
                let width = fitted_width limit cwd headers (column_widths ansi headers rows) in
                let (first, later, e) =
                  shorten_column_first cwd width
                    (if ltb width (ansi.string_width (item_at [] cwd headers))
                      then set_at cwd (bytes "CWD") headers
                      else headers)
                    rows in
                (
                  first,
                  later,
                  set_at cwd width (column_widths ansi headers rows),
                  rw (fit_columns, found, bounded) (rw e refl),
                )
          ]
        ]

    render_section_total :
        (options : Options) (section : Section)
        → (text : Str) × (render_section ansi options section ≡ some text)
    unfolding render_section
    render_section_total options section =
        let (first, later, widths, e) =
          fit_columns_total options.width section.headers section.rows in
        value_of (render_section ansi options section) (rw (render_section, e) refl)

    render_sections_total :
        (options : Options) (sections : List Section)
        → (texts : List Str) × (render_sections ansi options sections ≡ some texts)
    unfolding render_sections
    render_sections_total options [] = ([], refl)
    render_sections_total options (section ∷ rest) =
        let (text, e) = render_section_total options section in
        let (later, f) = render_sections_total options rest in
        (text ∷ later, rw (render_sections, e, f) refl)

    -- The text of every status is complete: no cell is shortened without end.
    pub render_total :
        (options : Options) (s : Status) → (text : Str) × (render ansi options s ≡ some text)
    unfolding render
    render_total options s =
        let (texts, e) = render_sections_total options (tables options.hyperlinks s) in
        value_of (render ansi options s) (rw (render, e) refl)
