-- ===== src/Kernel.antt =====
-- kernel/: hosts the applications, and owns the runtime that can be restarted, the registry of
-- processes and the settings documents. One mutex guards every operation modelled here, so each is
-- one step on the state of `Kernel.State`.
pub mod Host
pub mod State
pub mod Processes
pub mod Lifecycle
pub mod Settings
pub mod Steps
pub mod Invariant
pub mod Runs
pub mod Rebuild
pub mod Control
pub mod Saving
pub mod Documents
pub mod Api
mod Tests
