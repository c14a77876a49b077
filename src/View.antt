-- ===== src/View.antt =====
-- The status that people read: `cli/internal/statusview` and `cli/internal/diagnostics`.
pub mod Diagnostics
pub mod Format
pub mod Sections
pub mod Table
pub mod Render
pub mod Fits
pub mod Shortened
pub mod Columns
pub mod Kinds
pub mod Shown
pub mod Examples
