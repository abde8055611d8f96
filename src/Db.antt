-- ===== src/Db.antt =====
-- The database of the desktop back end (alterchat-ui/src-tauri/src/db.rs).
pub mod Table
pub mod Rows
pub mod Schema
pub mod Settings
pub mod Json
pub mod Rooms
pub mod Messages
pub mod Nodes
pub mod Lists
pub mod Steps
pub mod Replay
pub mod Registry
mod Tests
