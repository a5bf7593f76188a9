-- ===== src/Runbook.antt =====
-- The package runbook: running an action's executable and reporting its result.
pub mod Types
pub mod Sender
pub mod Callback
pub mod Executor
pub mod Windows
mod Tests
