-- ===== src/Openssh.antt =====
-- The OpenSSH adapter: `cli/internal/openssh`.
pub mod Snapshot
pub mod Scanner
pub mod Control
pub mod Forward
mod Examples
