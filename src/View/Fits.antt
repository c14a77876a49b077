-- ===== src/View/Fits.antt =====
-- The shortened cells and the widths of the columns.
use ssh_forward.Core.Types.{direction_eq, key_eq, state_eq, target_eq}
use ssh_forward.Prelude.{
  Bool-cases, Str, arith, bool_eq, cut, inl, inr, leb, ltb, nat_eq, refl, some, str_eq, suc, zero,
  ℕ, ◌++◌, ◌+◌, ◌-◌, ◌<◌, ◌≡◌, ◌≤◌,
}
use ssh_forward.View.Table.{Ansi, ellipsis, maximum, shorten_from, shorten_tail}

-- What the layout relies on of the package: a text without its first `n` columns has no column where
-- it has at most `n` of them, and the ellipsis adds one column.
pub record IsMeasure (ansi : Ansi) : Type 0 where
  pub truncated :
      (value : Str) (n : ℕ)
      → ansi.string_width value ≤ n
      → ansi.string_width (ansi.truncate_left value n) ≡ 0
  pub ellipsis_alone : ansi.string_width ellipsis ≤ 1
  pub ellipsis_before :
      (tail : Str) → ansi.string_width (ellipsis ++ tail) ≤ 1 + ansi.string_width tail

module _ (ansi : Ansi) (m : IsMeasure ansi) where
  shorten_from_ends :
      (fuel : ℕ) (value : Str) (width cut : ℕ)
      → 0 < width
      → cut ≤ ansi.string_width value
      → ansi.string_width value < fuel + cut
      → (out : Str) × (shorten_from ansi fuel value width cut ≡ some out)
        × (ansi.string_width out ≤ width)
  unfolding shorten_from
  shorten_from_ends zero value width cut w c t = absurd (omega arith)
  shorten_from_ends (suc fuel) value width cut w c t =
      let tail = ansi.truncate_left value cut in
      elim (Bool-cases (ltb (ansi.string_width tail) width)) [
        | inl fits ↦ (ellipsis ++ tail, rw fits refl, ground (arith, m.ellipsis_before tail))
        | inr wide ↦
            let next : cut + 1 ≤ ansi.string_width value =
              ground (arith, wide, m.truncated value cut) in
            let (out, e, b) = shorten_from_ends fuel value width (cut + 1) w next (omega arith) in
            (out, rw wide e, b)
      ]

  -- `shortenTail` ends; its result has at most the given width, or one column where less is given, and
  -- is the text itself where this fits.
  pub shorten_tail_lem :
      (value : Str) (width : ℕ)
      → (out : Str) × (shorten_tail ansi value width ≡ some out)
        × (ansi.string_width out ≤ maximum width 1)
        × ((ansi.string_width value ≤ width) → (out ≡ value))
  unfolding shorten_tail
  shorten_tail_lem value width = elim (Bool-cases (leb (ansi.string_width value) width)) [
    | inl fits ↦ (value, rw fits refl, ground (arith, fits), λ h. refl)
    | inr wide ↦ elim (Bool-cases (leb width 1)) [
      | inl narrow ↦ (
        ellipsis,
        rw (wide, narrow) refl,
        ground (arith, m.ellipsis_alone),
        λ h. absurd (ground (arith, wide, h)),
      )
      | inr some_room ↦
          let total = ansi.string_width value in
          let (out, e, b) =
            shorten_from_ends total value width (total - width + 1) (ground arith) (ground arith)
              (ground arith) in
          (out, rw (wide, some_room) e, ground (arith, b), λ h. absurd (ground (arith, wide, h)))
    ]
  ]
