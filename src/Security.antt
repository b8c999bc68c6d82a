-- ===== src/Security.antt =====
-- Authentication and pairing (internal/security).
pub mod Registry
pub mod Approval
pub mod Token
mod Tests
