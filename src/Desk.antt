-- ===== src/Desk.antt =====
-- The handlers of the desktop back end (alterchat-ui/src-tauri/src/lib.rs and the files of commands).
pub mod Decimal
pub mod Env
pub mod Session
pub mod Moves
pub mod Access
pub mod Invites
pub mod Grants
pub mod Guards
pub mod Config
pub mod RateLimit
pub mod Sessions
pub mod Profiles
pub mod Login
pub mod Media
pub mod Preferences
pub mod Shown
pub mod Social
mod Tests
