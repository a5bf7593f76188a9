-- ===== src/Git.antt =====
-- The package git.
pub mod Repositories
pub mod Leftovers
pub mod Laws
pub mod Sync
pub mod Lock
mod Tests
