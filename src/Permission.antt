-- ===== src/Permission.antt =====
-- The permission hook bridge (internal/permission).
pub mod Paths
pub mod Types
pub mod Pattern
pub mod Memory
pub mod Pending
pub mod Service
pub mod Calls
mod Tests
