-- ===== src/Crypto.antt =====
-- The cryptographic libraries that the program calls (aes_gcm, x25519_dalek, hkdf, sha2), as an
-- interface: their functions on byte strings, and the documented behaviour that the code relies on.
mod Interface
mod Toy
pub use Interface.*
pub use Toy.*
