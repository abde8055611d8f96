-- ===== src/Node/Identity.antt =====
-- Who the node is after a run of the event loop: whom the last login made it
-- (alterchat-ui/src-tauri/src/lib.rs).
pub mod Requests
unfoldable pub use alter_chat.Node.Identity.Requests.{identity}
use alter_chat.Node.Identity.Requests.{has_db}
use alter_chat.Base.{
  ℕ, String, Bool, true, false, Option, none, some, List, [], ◌∷◌, ◌≡◌, refl, ap, sym, some_inj,
  Bool-cases,
}
use mathlib.Core.Option
use alter_chat.Base.Bytes.{Bytes}
use alter_chat.Base.Equality.{string_eq}
use alter_chat.Db.Schema.{Db}
use alter_chat.FileTransfer.{
  P2pRequest, P2pResponse, ratchet_private_message_ack, x3dh_dm_ack, file, file_chunk,
  webrtc_signal, private_message, ratchet_private_message, x3dh_dm, capability_announcement,
  onion_forward, plugin_event, pow_challenge, pow_solution,
}
use alter_chat.Node.Types.{World, Moment, Node, Effect, PmPayload}
use alter_chat.Node.Policy.{Verdict, served, refused, rate_limited, trusts, admit}
use alter_chat.Pow.{PowToken}
use alter_chat.Traffic.{PowBanList}
use alter_chat.Onion.{OnionLayer}
use alter_chat.Node.Files.{serve_file, serve_file_chunk}
use alter_chat.Node.Direct.{
  receive_ratchet_message, receive_x3dh_message, serve_private_message,
  serve_ratchet_private_message, serve_x3dh_dm, conclude,
}
use alter_chat.Node.Relay.{serve_onion_forward, serve_packet, serve_layer}
use alter_chat.Node.Requests.{serve, on_verdict, handle_request}
use alter_chat.Node.Outbox
use alter_chat.Node.Session
use alter_chat.Base.Result.{Result, ok}
use alter_chat.Desk.Login.{db_path_of, key_path_of}
use alter_chat.Node.Commands
use alter_chat.Node.Loop.{AppCommand, Input}

-- The password and the mode of a login.
unfoldable pub login_of_command : AppCommand → Option (String × Bool)
login_of_command (AppCommand.start_session password amnesic stored) = some (password, amnesic)
login_of_command c = none

unfoldable pub login_of : Input → Option (String × Bool)
login_of (Input.command c) = login_of_command c
login_of input = none

-- The last login of a run.
unfoldable pub last_login : List (Moment × Input) → Option (String × Bool)
last_login [] = none
last_login ((m, input) ∷ inputs) = elim (last_login inputs) [
  | none ↦ login_of input
  | some login ↦ some login
]

-- Without a login the node is who it was; after one it has a network and a database, that of the
-- path of the login, and its id and its secret are those of the keypair in the key file of the login.
unfoldable pub IsAfter : (W : World) → Option (String × Bool) → Node W → Node W → Type 0
IsAfter W none node node' = identity W node' ≡ identity W node
IsAfter W (some (password, amnesic)) node node' =
    (k : W.E.S.Keypair) × (W.E.P.load_or_generate_keypair (key_path_of W.E.C password amnesic)
      ≡ ok k)
    × (identity W node' ≡ (
      true,
      true,
      some (db_path_of W.E.C password amnesic),
      W.E.S.peer_id (W.E.S.public k),
      W.ed25519_secret k,
      some k,
    ))

-- The node that a turn gives.
after : {W : World} {o p : List Effect × Node W} → some o ≡ some p → identity W p.1 ≡ identity W o.1
after {W} h = ap (λ (o : List Effect × Node W). identity W o.1) (sym (some_inj h))
