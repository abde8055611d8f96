-- ===== src/Node/Requests.antt =====
-- The handler of a request from a peer (alterchat-ui/src-tauri/src/lib.rs): the tests that every
-- request meets, then the branch of its kind.
use alter_chat.Base.{String, true, none, some, List, [], ◌∷◌, if◌then◌else◌}
use alter_chat.FileTransfer.{
  P2pRequest, file, file_chunk, webrtc_signal, private_message, ratchet_private_message, x3dh_dm,
  capability_announcement, onion_forward, plugin_event, pow_challenge, pow_solution, webrtc_ack,
  capability_ack, plugin_event_ack, pow_ack, rejection_for_request,
}
use alter_chat.Base.Equality.{string_eq}
use mathlib.Core.Option
use alter_chat.Db.Nodes.{save_capability}
use alter_chat.Node.Types.{
  World, Moment, Node, Effect, emit, respond, text, texts, signal, capability,
}
use alter_chat.Node.Policy.{Verdict, served, refused, rate_limited, admit}
use alter_chat.Node.Files.{serve_file, serve_file_chunk}
use alter_chat.Node.Direct.{serve_private_message, serve_ratchet_private_message, serve_x3dh_dm}
use alter_chat.Node.Relay.{serve_onion_forward}

module _ (W : World) where
  -- The `match` on the request. Its answer does not wait for what an announcement's row becomes.
  unfoldable pub serve : Moment → String → P2pRequest → Node W → List Effect × Node W
  serve m peer (file filename content) node =
      let (effects, conn) = serve_file peer filename content node.conn in
      (effects, record node { conn = conn })
  serve m peer (file_chunk transfer_id index total hash content) node =
      let (effects, conn) =
        serve_file_chunk W.E.C m node.db_path peer transfer_id index hash content node.conn in
      (effects, record node { conn = conn })
  serve m peer (webrtc_signal words) node =
      (emit "webrtc-signal" (signal peer words) ∷ respond (webrtc_ack true) ∷ [], node)
  serve m peer (private_message words nick timestamp ttl token) node =
      let (effects, ban, conn) =
        serve_private_message W m node.peer_id peer words nick timestamp ttl token node.pow_ban
          node.conn in
      (effects, record node { conn = conn; pow_ban = ban })
  serve m peer (ratchet_private_message envelope nick timestamp ttl) node =
      let (effects, conn) =
        serve_ratchet_private_message W m node.peer_id node.offline_secret peer envelope nick
          timestamp ttl node.conn in
      (effects, record node { conn = conn })
  serve m peer (x3dh_dm init_msg envelope dh_pub nick timestamp ttl) node =
      let (effects, conn) =
        serve_x3dh_dm W m node.peer_id node.offline_secret peer envelope nick timestamp ttl
          node.conn in
      (effects, record node { conn = conn })
  serve m peer (capability_announcement peer_id s r d v score versions) node = (
    emit "peer-capability" (capability peer_id score) ∷ respond (capability_ack true) ∷ [],
    record node {
      conn =
          Option.map (λ db. (save_capability W.strings m.now peer_id s r d v score versions db).1)
            node.conn;
    },
  )
  serve m peer (onion_forward packet) node =
      let (effects, conn) =
        serve_onion_forward W m node.peer_id node.offline_secret peer packet node.conn in
      (effects, record node { conn = conn })
  serve m peer (plugin_event plugin_id event_json) node = (
    emit "plugin-event" (texts plugin_id event_json) ∷ respond (plugin_event_ack true) ∷ [],
    node,
  )
  serve m peer (pow_challenge challenge_id bits nonce) node =
      (emit "pow-challenge" (text challenge_id) ∷ respond (pow_ack true) ∷ [], node)
  serve m peer (pow_solution challenge_id solution) node =
      (emit "pow-solution" (text challenge_id) ∷ respond (pow_ack true) ∷ [], node)

  -- What is done after the verdict on a request.
  unfoldable pub on_verdict : Verdict → Moment → String → P2pRequest → Node W → List Effect × Node W
  on_verdict served m peer request node = serve m peer request node
  on_verdict refused m peer request node = (respond (rejection_for_request request) ∷ [], node)
  on_verdict rate_limited m peer request node =
      (emit "peer-rate-limited" (text peer) ∷ respond (rejection_for_request request) ∷ [], node)

  unfoldable pub handle_request : Moment → String → P2pRequest → Node W → List Effect × Node W
  handle_request m peer request node =
      if node.swarm
      then elim node.conn [
        | none ↦ serve m peer request node
        | some db ↦
            let (verdict, buckets, after) = admit m.now peer node.config node.rate_buckets db in
            on_verdict verdict m peer request
              (record node { conn = some after; rate_buckets = buckets })
      ]
      else ([], node)
