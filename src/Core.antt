-- ===== src/Core.antt =====
-- The package `cli/internal/core`: one host's manager and its forwards.
pub mod Types
pub mod Desired
pub mod Normalize
pub mod Names
pub mod Intent
pub mod Reconcile
pub mod Manager
pub mod Worker
mod Examples
