-- ===== src/Governance.antt =====
-- Rooms' invitations, roles, grants and trust (alterchat-core/src/governance.rs).
pub mod Types
pub mod Tokens
pub mod Access
pub mod Authentic
pub mod Permissions
mod Tests
