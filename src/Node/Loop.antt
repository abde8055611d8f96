-- ===== src/Node/Loop.antt =====
-- The turns of the event loop (`tokio::select!` of alterchat-ui/src-tauri/src/lib.rs): the commands,
-- the start of a session among them, the requests, the timers and the events of the network. `none`
-- is that the loop ends by a panic.
mod Tests
use alter_chat.Base.{ℕ, String, Bool, Option, some, List, [], ◌∷◌, ◌++◌}
use mathlib.Core.Option
use alter_chat.Base.Bytes.{Bytes}
use alter_chat.Int.{ℤ}
use alter_chat.Desk.Config.{FullConfig}
use alter_chat.FileTransfer.{P2pRequest}
use alter_chat.Node.Types.{World, Moment, Node, Effect}
use alter_chat.Node.Requests.{handle_request}
use alter_chat.Node.Outbox
use alter_chat.Node.Session.{on_rotation}
use alter_chat.Node.Session
use alter_chat.Db.Schema.{Db}
use alter_chat.Node.Commands
use alter_chat.Node.Events.{
  on_dht_check, on_chaff, on_capability, on_discovered, on_expired, on_identified, on_gossip,
  on_record,
}

pub data AppCommand : Type 0 where
  -- With what the file of the database has.
  start_session : (password : String) (amnesic : Bool) (stored : Db) → AppCommand
  send_message : (words nick : String) (ttl : Option ℤ) → AppCommand
  join_channel : (name : String) (password : Option String) → AppCommand
  send_file : (peer filename : String) (content : Bytes) → AppCommand
  send_webrtc_signal : (peer words : String) → AppCommand
  set_bootstrap : (addr : String) → AppCommand
  save_settings : (config : FullConfig) → AppCommand
  add_friend : (peer nickname : String) (offline_pubkey : Option String) → AppCommand
  remove_friend : (peer : String) → AppCommand
  send_private_message : (peer words nick : String) (ttl : Option ℤ) (use_onion : Bool) → AppCommand
  save_group : (channel_name : String) (password : Option String) → AppCommand
  remove_group : (channel_name : String) → AppCommand
  revoke_invite_global : (invite_id : String) → AppCommand
  -- The room's id, which is a hash of the name and of the time.
  join_anonymous_channel : (anon_room_id : String) → AppCommand
  publish_room_revocations : (room_id : String) → AppCommand

-- What wakes the loop.
pub data Input : Type 0 where
  command : AppCommand → Input
  request : (peer : String) → P2pRequest → Input
  gossip : (topic : String) (content : Bytes) → Input
  found_record : (key value : Bytes) → Input
  identified : (peer : String) (addrs : List String) → Input
  discovered : List String → Input
  expired : List String → Input
  dht_check : (my_offline_pubkey : String) → Input
  rotation : Input
  chaff : ℕ → Input
  announcement : (peers : List String) (score : ℕ) → Input

module _ (W : World) (m : Moment) where
  unfoldable pub obey : AppCommand → Node W → Option (List Effect × Node W)
  obey (AppCommand.start_session password amnesic stored) node =
      Session.start_session W m password amnesic stored node
  obey (AppCommand.send_message words nick ttl) node = Commands.send_message W m words nick ttl node
  obey (AppCommand.join_channel name password) node = Commands.join_channel W m name password node
  obey (AppCommand.send_file peer filename content) node =
      some (Commands.send_file W m peer filename content node)
  obey (AppCommand.send_webrtc_signal peer words) node =
      some (Commands.send_webrtc_signal W m peer words node)
  obey (AppCommand.set_bootstrap addr) node = some (Commands.set_bootstrap W m addr node)
  obey (AppCommand.save_settings config) node = some (Commands.save_settings W m config node)
  obey (AppCommand.add_friend peer nickname offline_pubkey) node =
      some (Commands.add_friend_command W m peer nickname offline_pubkey node)
  obey (AppCommand.remove_friend peer) node = some (Commands.remove_friend_command W m peer node)
  obey (AppCommand.send_private_message peer words nick ttl use_onion) node =
      Outbox.send_private_message W m peer words nick ttl use_onion node
  obey (AppCommand.save_group channel_name password) node =
      some (Commands.save_group_command W m channel_name password node)
  obey (AppCommand.remove_group channel_name) node =
      some (Commands.remove_group_command W m channel_name node)
  obey (AppCommand.revoke_invite_global invite_id) node =
      some (Commands.revoke_invite_global W m invite_id node)
  obey (AppCommand.join_anonymous_channel anon_room_id) node =
      Commands.join_anonymous_channel W m anon_room_id node
  obey (AppCommand.publish_room_revocations room_id) node =
      some (Commands.publish_room_revocations W m room_id node)

  unfoldable pub turn : Input → Node W → Option (List Effect × Node W)
  turn (command c) node = obey c node
  turn (request peer r) node = some (handle_request W m peer r node)
  turn (gossip topic content) node = on_gossip W m topic content node
  turn (found_record key value) node = some (on_record W m key value node)
  turn (identified peer addrs) node = some (on_identified W m peer addrs node)
  turn (discovered peers) node = some (on_discovered W m peers node)
  turn (expired peers) node = some (on_expired W m peers node)
  turn (dht_check my_offline_pubkey) node = some (on_dht_check W m my_offline_pubkey node)
  turn rotation node = some (on_rotation W m node)
  turn (chaff r) node = some (on_chaff W m r node)
  turn (announcement peers score) node = some (on_capability W m peers score node)

-- Turn after turn, with all that goes out.
unfoldable pub run_loop :
    (W : World) → List (Moment × Input) → Node W → Option (List Effect × Node W)
run_loop W [] node = some ([], node)
run_loop W ((m, input) ∷ inputs) node =
    Option.bind (turn W m input node) λ (first : List Effect × Node W).
      Option.map (λ (rest : List Effect × Node W). (first.0 ++ rest.0, rest.1))
        (run_loop W inputs first.1)
