-- ===== src/Signer.antt =====
-- Signatures and peer identities (libp2p): the interface, and an instance that is lawful.
pub mod Interface
pub mod Toy
pub use Interface.*
