-- ===== src/Node.antt =====
-- The event loop of the desktop back end (`run` of alterchat-ui/src-tauri/src/lib.rs).
pub mod Types
pub mod Policy
pub mod Files
pub mod Direct
pub mod Relay
pub mod Requests
pub mod Answers
pub mod Quota
pub mod Kept
pub mod Reading
pub mod Received
pub mod Outbox
pub mod Refusal
pub mod Roles
pub mod Commands
pub mod Events
pub mod Mailbox
pub mod Gossip
pub mod Delivery
pub mod Session
pub mod Loop
pub mod Identity
mod Toy
mod Tests
