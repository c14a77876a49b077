-- ===== src/View/Table.antt =====
-- The layout of a section: `cli/internal/statusview/table.go`.
use ssh_forward.App.Config.{index_func, item_at, published_eq, remembered_eq, set_at}
use ssh_forward.Core.Types.{direction_eq, key_eq, state_eq, target_eq}
use ssh_forward.Prelude.{
  Bool, List, Option, Str, [], bool_eq, bytes, cut, false, if◌then◌else◌, join, leb, length, ltb,
  map, nat_eq, none, not, some, str_eq, suc, true, zero, ℕ, ◌*◌, ◌++◌, ◌+◌, ◌-◌, ◌==◌, ◌||◌, ◌∷◌,
}
use ssh_forward.View.Format.{cyan, gray, magenta, red}
use ssh_forward.View.Sections.{Section}

-- The two functions of `github.com/charmbracelet/x/ansi` that the layout calls: `StringWidth`, and
-- `TruncateLeft` with the empty prefix.
pub record Ansi : Type 0 where
  pub string_width : Str → ℕ
  pub truncate_left : Str → ℕ → Str

-- `Options`; a width of 0 stands for every width that is not positive.
pub record Options : Type 0 where
  pub width : ℕ
  pub color : Bool
  pub hyperlinks : Bool

abbrev pub column_gap : ℕ
column_gap = 2

abbrev pub port_width : ℕ
port_width = 5

unfoldable pub styled : Str → Str → Bool → Str
styled text code enabled =
    if not enabled || code == []
    then text
    else (27 ∷ bytes "[") ++ code ++ bytes "m" ++ text ++ (27 ∷ bytes "[0m")

abbrev pub is_port_column : Str → Bool
is_port_column header =
    header == bytes "PORT" || header == bytes "REMOTE" || header == bytes "LOCAL"

abbrev pub maximum : ℕ → ℕ → ℕ
maximum a b = if ltb a b then b else a

abbrev pub minimum : ℕ → ℕ → ℕ
minimum a b = if ltb b a then b else a

-- `strings.Repeat(" ", n)`
unfoldable pub spaces : ℕ → Str
spaces zero = []
spaces (suc n) = b' ' ∷ spaces n

unfoldable pub sum_of : List ℕ → ℕ
sum_of [] = 0
sum_of (n ∷ rest) = n + sum_of rest

abbrev pub ellipsis : Str
ellipsis = 226 ∷ 128 ∷ 166 ∷ []

-- The sum of the widths but for that of the column `cwd`.
unfoldable pub other_widths : ℕ → List ℕ → ℕ
unfolding sum_of
other_widths cwd [] = 0
other_widths zero (w ∷ widths) = sum_of widths
other_widths (suc cwd) (w ∷ widths) = w + other_widths cwd widths

abbrev pub working_directory : Str
working_directory = bytes "WORKING DIRECTORY"

-- The width that is left for the column `cwd`.
unfoldable pub fitted_width : ℕ → ℕ → List Str → List ℕ → ℕ
unfolding other_widths item_at
fitted_width limit cwd headers widths =
    let fixed = column_gap * (length headers - 1) + other_widths cwd widths in
    minimum (item_at 0 cwd widths) (maximum (limit - fixed) 1)

module _ (ansi : Ansi) where
  -- The loop of `shortenTail`, from the pass `cut` on.
  unfoldable pub shorten_from : ℕ → Str → ℕ → ℕ → Option Str
  shorten_from zero value width cut = none
  shorten_from (suc fuel) value width cut =
      let later = shorten_from fuel value width (cut + 1) in
      let tail = ansi.truncate_left value cut in
      if ltb (ansi.string_width tail) width then some (ellipsis ++ tail) else later

  -- `shortenTail`, with as many passes as the text has columns.
  unfoldable pub shorten_tail : Str → ℕ → Option Str
  unfolding shorten_from
  shorten_tail value width =
      let total = ansi.string_width value in
      if leb total width
      then some value
      else if leb width 1
      then some ellipsis
      else shorten_from total value width (total - width + 1)

  -- One row's part of the loop over the columns.
  unfoldable pub widen : List ℕ → List Str → List ℕ
  widen widths [] = widths
  widen [] (cell ∷ cells) = []
  widen (w ∷ widths) (cell ∷ cells) = maximum w (ansi.string_width cell) ∷ widen widths cells

  unfoldable pub widen_all : List ℕ → List (List Str) → List ℕ
  unfolding widen
  widen_all widths [] = widths
  widen_all widths (row ∷ rows) = widen_all (widen widths row) rows

  unfoldable pub column_widths : List Str → List (List Str) → List ℕ
  unfolding widen_all
  column_widths headers rows =
      widen_all (map (λ h. if is_port_column h then port_width else 0) headers) (headers ∷ rows)

  -- `row[cwd] = shortenTail(row[cwd], width)` for every row.
  unfoldable pub shorten_column : ℕ → ℕ → List (List Str) → Option (List (List Str))
  unfolding shorten_tail item_at set_at
  shorten_column cwd width [] = some []
  shorten_column cwd width (row ∷ rows) = elim (shorten_tail (item_at [] cwd row) width) [
    | none ↦ none
    | some cell ↦ elim (shorten_column cwd width rows) [
      | none ↦ none
      | some later ↦ some (set_at cwd cell row ∷ later)
    ]
  ]

  -- The rows, the headers' first, and the widths of the columns.
  unfoldable pub fit_columns : ℕ → List Str → List (List Str) → Option (List (List Str) × List ℕ)
  unfolding column_widths fitted_width shorten_column index_func
  fit_columns limit headers rows =
      let widths = column_widths headers rows in
      elim (index_func (λ h. h == working_directory) headers) [
        | none ↦ some (headers ∷ rows, widths)
        | some cwd ↦
            if limit == 0
            then some (headers ∷ rows, widths)
            else (let width = fitted_width limit cwd headers widths in
                let titles =
                  if ltb width (ansi.string_width (item_at [] cwd headers))
                  then set_at cwd (bytes "CWD") headers
                  else headers in
                elim (shorten_column cwd width (titles ∷ rows)) [
                  | none ↦ none
                  | some fitted ↦ some (fitted, set_at cwd width widths)
                ])
      ]

  abbrev color_of : Str → Str → Bool → Str
  color_of accent header is_header =
      if is_header
      then bytes "1;" ++ gray
      else if is_port_column header
      then accent
      else if header == bytes "PROJECT"
      then bytes "1;" ++ accent
      else if header == bytes "TARGET"
      then cyan
      else if header == bytes "APP"
      then magenta
      else if header == bytes "ISSUE"
      then red
      else []

  -- The loop over the cells of a row.
  unfoldable pub render_cells : Str → Bool → Bool → List Str → List ℕ → List Str → Str
  unfolding spaces styled
  render_cells accent color is_header headers widths [] = []
  render_cells accent color is_header [] widths (cell ∷ cells) = []
  render_cells accent color is_header (h ∷ headers) [] (cell ∷ cells) = []
  render_cells accent color is_header (h ∷ headers) (w ∷ widths) (cell ∷ cells) =
      let later = render_cells accent color is_header headers widths cells in
      let padding = spaces (w - ansi.string_width cell) in
      let text = styled cell (color_of accent h is_header) color in
      (if is_port_column h then padding else [])
      ++ text
      ++ (if length headers == 0
          then later
          else (if is_port_column h then [] else padding) ++ bytes "  " ++ later)

  unfoldable pub render_rows : Str → Bool → List Str → List ℕ → List (List Str) → List Str
  unfolding render_cells
  render_rows accent color headers widths [] = []
  render_rows accent color headers widths (row ∷ rows) =
      render_cells accent color false headers widths row
      ∷ render_rows accent color headers widths rows

  -- `renderSection`
  unfoldable pub render_section : Options → Section → Option Str
  unfolding fit_columns render_rows
  render_section options section = elim (fit_columns options.width section.headers section.rows) [
    | none ↦ none
    | some ([], widths) ↦ none
    | some (headers ∷ rows, widths) ↦ some (
        join (bytes "\n") (
          styled section.title (bytes "1;" ++ section.accent) options.color
          ∷ render_cells section.accent options.color true headers widths headers
          ∷ render_rows section.accent options.color headers widths rows))
  ]
