-- ===== src/View/Render.antt =====
-- The whole text: `Render` of `cli/internal/statusview/statusview.go`.
use ssh_forward.Core.Types.{DiscoveryState, Status, direction_eq, key_eq, state_eq, target_eq}
use ssh_forward.Prelude.{
  Bool, List, Option, Str, [], bool_eq, bytes, false, if◌then◌else◌, join, length, nat_eq, none,
  some, str_eq, true, ◌&&◌, ◌++◌, ◌==◌, ◌∷◌,
}
use ssh_forward.View.Diagnostics.{text_of}
use ssh_forward.View.Format.{bright_cyan, discovery_color, red}
use ssh_forward.View.Sections.{Section, tables}
use ssh_forward.View.Table.{Ansi, Options, render_section, styled}

abbrev discovery_text : DiscoveryState → Str
discovery_text DiscoveryState.connecting = bytes "connecting"
discovery_text DiscoveryState.active = bytes "active"
discovery_text DiscoveryState.failed = bytes "failed"
discovery_text DiscoveryState.unset = []

-- The test of the discovery's state.
abbrev is_active : DiscoveryState → Bool
is_active DiscoveryState.active = true
is_active _ = false

unfoldable pub render_summary : Options → Status → Str
unfolding styled text_of
render_summary options s =
    let summary =
      styled (bytes "Host") (bytes "1;94") options.color
      ++ bytes "  "
      ++ styled s.host bright_cyan options.color
      ++ bytes "    "
      ++ styled (bytes "Discovery") (bytes "1;94") options.color
      ++ bytes "  "
      ++ styled (discovery_text s.discovery.state) (discovery_color s.discovery.state)
          options.color in
    if s.discovery.diagnostic == []
    then summary
    else summary
      ++ bytes "\n"
      ++ styled (bytes "Discovery detail") (bytes "1;" ++ red) options.color
      ++ bytes "  "
      ++ styled (text_of s.discovery.diagnostic) red options.color

module _ (ansi : Ansi) where
  unfoldable pub render_sections : Options → List Section → Option (List Str)
  unfolding render_section
  render_sections options [] = some []
  render_sections options (section ∷ rest) = elim (render_section ansi options section) [
    | none ↦ none
    | some text ↦ elim (render_sections options rest) [
      | none ↦ none
      | some later ↦ some (text ∷ later)
    ]
  ]

  -- The text that `Render` writes.
  unfoldable pub render : Options → Status → Option Str
  unfolding render_summary render_sections tables
  render options s = elim (render_sections options (tables options.hyperlinks s)) [
    | none ↦ none
    | some sections ↦
        let idle =
          length s.forwards == 0 && length s.listeners == 0 && is_active s.discovery.state in
        some (
          join (bytes "\n\n") (
            render_summary options s
            ∷ (sections ++ (if idle then bytes "No loopback TCP listeners found." ∷ [] else [])))
          ++ bytes "\n")
  ]
