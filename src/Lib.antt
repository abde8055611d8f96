-- ===== src/Lib.antt =====
-- AlterChat: a verification library of the messenger: its core (alterchat-core), and the database,
-- the rules and the event loop of its desktop back end (alterchat-ui/src-tauri).
--
-- The program's parts and their modules:
-- - DoubleRatchet: the session of two peers, alterchat-core/src/double_ratchet.rs. The state is
--   `DrState`; init_alice, init_bob, encrypt, decrypt and what they call (try_skipped,
--   skip_message_keys, dh_ratchet, decrypt_with_key, kdf_rk, kdf_ck) have the source's names.
-- - X3dh: the handshake that a session's secret comes from (alterchat-core/src/x3dh.rs).
-- - Ratchet: the symmetric ratchet of alterchat-core/src/crypto.rs (RatchetState, for_peer_pair,
--   ratchet_encrypt, ratchet_decrypt).
-- - Sharding: shards of a file (alterchat-core/src/sharding.rs), and chunks and manifests
--   (alterchat-core/src/storage.rs).
-- - Governance: invitations, grants, roles, trust and permissions
--   (alterchat-core/src/governance.rs). Plugin: manifests, policies and the host's gate
--   (alterchat-core/src/plugin.rs), which signs and checks with the functions of Governance.
-- - Pow: challenges (alterchat-core/src/spam.rs) and tokens (alterchat-core/src/pow.rs).
-- - Traffic: padding, chaff, delays and the ban list (alterchat-core/src/traffic.rs). Pluggable: the
--   obfs4 and Snowflake codecs (alterchat-core/src/pluggable.rs).
-- - Envelope: encryption for a peer, sealed messages, the keys of records and the safety number
--   (alterchat-core/src/crypto.rs). Onion: the packets of a route, over Envelope
--   (alterchat-core/src/onion.rs). Vault: files at rest
--   (alterchat-core/src/secure_storage.rs) and the encryption of a room's document; Crdt: the room
--   with its messages (alterchat-core/src/crdt.rs).
-- - FileTransfer: what two nodes ask and answer (alterchat-core/src/file_transfer.rs). Network: the
--   configuration of the network and the addresses to begin with (alterchat-core/src/network.rs).
-- - Db: the database of alterchat-ui/src-tauri/src/db.rs. Db.Table has the statements of SQL on
--   tables as lists of rows, Db.Rows the rows, Db.Schema the whole and its migrations; the functions
--   of the source are in Db.Settings, Db.Rooms, Db.Messages, Db.Nodes and Db.Lists. Db.Steps makes them the
--   steps of a transition system, on which Db.Replay and Db.Registry stand.
-- - Desk: the desktop back end. Desk.Config is the configuration, Desk.RateLimit the limit on
--   the requests of a peer, Desk.Sessions the states of Ratchet and DoubleRatchet that the database
--   keeps, Desk.Access who may act, Desk.Profiles the paths of a profile
--   (alterchat-ui/src-tauri/src/lib.rs); Desk.Invites and Desk.Grants are the commands of
--   alterchat-ui/src-tauri/src/commands/governance.rs, which use Governance and Db; Desk.Login,
--   Desk.Media and Desk.Preferences with Desk.Shown are those of auth.rs, media.rs and settings.rs
--   beside it, Desk.Social those of social.rs, room.rs, storage.rs and plugin.rs.
-- - Node: the loop of `run` in alterchat-ui/src-tauri/src/lib.rs, which joins all of the above. Its
--   local variables are the record `Node`. Node.Requests serves what a peer asks, with the tests of
--   Node.Policy, and has its branches in Node.Files, Node.Direct and Node.Relay; Node.Outbox sends
--   private messages, Node.Commands obeys the windows' other commands, Node.Events takes what the
--   network reports, Node.Session starts a session. Node.Loop composes them: `turn` is one round of
--   the loop, run_loop a run over a list of inputs. Its other children hold proofs.
-- Each part has its definitions in the file of its name or in children named for them, its proofs in
-- children named for what they are about, and concrete runs in its child Tests. Base has what all
-- share: byte strings, results and the actions of functions that take a mutable state. Int has the
-- signed integers.
--
-- Library code that the source only calls is a parameter. Crypto is HKDF, X25519, AES-256-GCM and
-- SHA-256; Signer is libp2p's keys and peer ids; Codec of Governance is bincode; Kem of
-- X3dh is ML-KEM and Ed25519. Their laws are records: Diffie-Hellman commutes, decryption undoes
-- encryption, decapsulation gives the encapsulated secret, a signature verifies under its key,
-- SHA-256 gives 32 bytes. That a primitive is secure is not among them. Small instances, with the
-- tests, have the laws.
--
-- Automerge of Crdt is the automerge library. Its one law is that a document loads as it was
-- saved. World of Node is the rest of what the loop relies on: bincode, hexadecimal digits,
-- UTF-8, PBKDF2, libp2p's texts of peers and addresses. A Moment has what one round reads from
-- outside: clocks, random values, and the answers of libp2p and of the file system. An Effect is
-- what goes out: an event for the windows, an answer or a request to a peer, a publication, a
-- record of the DHT, a file written. What a handler returns is a list of these, in order, and the
-- next state; none stands for a panic, which ends the loop.
--
-- Random values and the clock are arguments. A function that takes `&mut` and returns a `Result` is
-- an action that gives back the state on an error too. Integers of w bits wrap around, as in a
-- release build. Loops take fuel: `skip_message_keys`, `ratchet_decrypt` and `derive_mask` as many
-- rounds as they need at most, since each round moves on by one at least; the endless loop of `mint`
-- any number. `data.chunks` takes the length as fuel, since each chunk has a byte at least.
--
-- `print_number` takes 20 digits, since an `i64` has at most 19. The database is a state, and its
-- clock is one argument for a run of statements; an INTEGER does not overflow. A failure of the disk
-- in the middle of a command is not modelled; that the database does not open is. serde_json is the
-- record Json, Argon2 and PBKDF2 are functions that stand for any.
--
-- The file of a database is an argument of a login, unless the session before has it open: then the
-- new session has what the old one wrote. `:memory:` is a new database each time.
--
-- Not modelled: libp2p itself and `create_swarm`, which wires it; the windows; the full-text
-- search; the inside of automerge; the copies of the id and of the public key that AppState gets at
-- a login; a database that fails in the middle of the event loop; the commands that only hand their
-- arguments to the event loop, and system.rs, which reports constants; and the bootstrap node,
-- which is wiring. libp2p-community-tor is another project's library.
pub mod Base
pub mod Crypto
pub mod DoubleRatchet
pub mod Int
pub mod Traffic
pub mod Pow
pub mod Pluggable
pub mod Signer
pub mod Governance
pub mod Plugin
pub mod Ratchet
pub mod Sharding
pub mod X3dh
pub mod Envelope
pub mod Onion
pub mod Vault
pub mod Db
pub mod Desk
pub mod FileTransfer
pub mod Crdt
pub mod Network
pub mod Node
