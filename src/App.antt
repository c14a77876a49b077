-- ===== src/App.antt =====
-- The service around the managers: `cli/internal/app`.
pub mod Targets
pub mod Processes
pub mod TargetId
pub mod Equivalent
pub mod Registry
pub mod HostTargets
pub mod Pool
pub mod Edits
pub mod Discovery
pub mod Config
pub mod Wire
mod Examples
