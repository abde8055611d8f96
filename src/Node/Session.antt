-- ===== src/Node/Session.antt =====
-- A session of the event loop (`StartSession` in alterchat-ui/src-tauri/src/lib.rs), and the rotation
-- of its prekeys. A failed `unwrap` is `none`. What the file of the database has is an argument, unless
-- the session before has it open. Drawn are the secret of the prekey and the seed of the bundle.
use alter_chat.Base.{
  ◌*◌, String, Bool, true, false, not, ◌&&◌, ◌||◌, map, Option, none, some, List, [], ◌∷◌, ◌++◌,
  if◌then◌else◌,
}
use mathlib.Core.Option
use alter_chat.Base.Bytes.{Bytes}
use alter_chat.Base.Equality.{◌==◌, string_eq}
use alter_chat.Base.Result.{Result, ok, err}
use alter_chat.Base.Text.{as_bytes}
use alter_chat.Int.{pos}
use alter_chat.Governance.Tokens.{hex_string}
use alter_chat.Envelope.{
  get_public_key, get_dht_mailbox_key, get_dht_pubkey_key, get_dht_prekey_bundle_key,
}
use alter_chat.X3dh.{generate_prekey_bundle}
use alter_chat.Network.{
  ProxyMode, direct, tor, socks5, i2p, TransportPreference, tcp, quic, over_tor,
  NetworkPrivacyConfig, community_bootstrap_addrs,
}
use alter_chat.Db.Schema.{Db, fresh_db}
use alter_chat.Db.Nodes.{save_prekey_bundle, cleanup_old_peers, load_known_peers}
use alter_chat.Desk.Access.{ensure_default_room_governance}
use alter_chat.Desk.Config.{FullConfig, load_full_config, is_blank}
use alter_chat.Desk.Login.{db_path_of, key_path_of}
use alter_chat.Desk.Session.{init_db}
use alter_chat.Node.Types.{
  World, Moment, Node, Effect, put_record, get_record, subscribe, dial, start_providing,
  get_providers, listen_on,
}
use alter_chat.Node.Commands.{revocation_topic, open_room, show_history}

unfoldable pub proxy_mode_of : FullConfig → ProxyMode
proxy_mode_of config =
    if config.tor_enabled || (config.proxy_mode == "tor")
    then tor
    else if config.proxy_mode == "socks5"
    then socks5
    else if config.proxy_mode == "i2p"
    then i2p
    else direct

unfoldable pub transport_of : String → TransportPreference
transport_of preference =
    if preference == "quic" then quic else if preference == "tor" then over_tor else tcp

unfoldable pub network_config_of : FullConfig → NetworkPrivacyConfig
network_config_of config = record {
  proxy_mode = proxy_mode_of config;
  transport_preference = transport_of config.transport_preference;
  proxy_addr = if is_blank config.proxy_addr then none else some config.proxy_addr;
  bootstrap_addrs = config.bootstrap_addrs;
  mdns_enabled = config.mdns_enabled;
  dht_server_mode = config.dht_server_mode;
  relay_enabled = config.relay_enabled;
  relay_fallback_enabled = config.relay_fallback_enabled;
  publish_capabilities = config.publish_capabilities;
  protocol_versions = "/alterchat/p2p/1.0.0" ∷ [];
}

-- Where the node listens.
unfoldable pub listeners : ProxyMode → TransportPreference → List Effect
listeners direct tcp = listen_on "/ip4/0.0.0.0/tcp/0" ∷ []
listeners mode quic = listen_on "/ip4/0.0.0.0/udp/0/quic-v1" ∷ []
listeners mode preference = []

-- The user's addresses, or the community's if there are none.
unfoldable pub first_addrs : List String → List String
first_addrs [] = community_bootstrap_addrs
first_addrs (addr ∷ addrs) = addr ∷ addrs

-- Whether the connection of the session before is to the file of a path; `:memory:` is no file.
unfoldable pub is_shared : {W : World} → String → Node W → Bool
is_shared db_path node = elim node.db_path [
  | none ↦ false
  | some path ↦ path == db_path && not (db_path == ":memory:")
]

-- What a database has when it is opened.
unfoldable pub file_at : {W : World} → String → Db → Node W → Db
file_at db_path stored node =
    if db_path == ":memory:"
    then fresh_db
    else if is_shared db_path node
    then Option.get_or node.conn stored
    else stored

module _ (W : World) (m : Moment) where
  unfoldable pub dial_all : List String → List Effect
  dial_all [] = []
  dial_all (addr ∷ addrs) =
      let rest = dial_all addrs in if W.parse_addr addr then dial addr ∷ rest else rest

  -- A new bundle of prekeys, printed.
  unfoldable pub new_bundle : Bytes → Result String
  new_bundle secret =
      W.bundles.to_string (generate_prekey_bundle W.E.C W.kem (m.draw 0) (m.draw 1) secret secret).0

  unfoldable pub publish_bundle : String → String → Effect
  publish_bundle peer_id bundle_json =
      put_record (get_dht_prekey_bundle_key W.E.C peer_id) (as_bytes bundle_json)

  -- Every seven days.
  unfoldable pub on_rotation : Node W → List Effect × Node W
  on_rotation node = elim node.conn [
    | none ↦ ([], node)
    | some db ↦
        if node.swarm
        then elim (new_bundle node.offline_secret) [
          | err e ↦ ([], node)
          | ok bundle_json ↦ (
            publish_bundle node.peer_id bundle_json ∷ [],
            record node { conn = some (save_prekey_bundle m.now node.peer_id bundle_json db) },
          )
        ]
        else ([], node)
  ]

  -- What goes out once the network has started.
  unfoldable pub announce_session : String → String → Bytes → NetworkPrivacyConfig → List Effect
  announce_session topic peer_id secret config =
      subscribe topic
        ∷ subscribe revocation_topic
        ∷ start_providing (as_bytes topic)
        ∷ get_providers (as_bytes topic)
        ∷ elim (new_bundle secret) as (λ _. List Effect) [
          | err e ↦ []
          | ok bundle_json ↦ publish_bundle peer_id bundle_json ∷ []
        ]
      ++ put_record (get_dht_pubkey_key W.E.C peer_id)
          (as_bytes (hex_string (get_public_key W.E.C secret)))
        ∷ get_record (get_dht_mailbox_key W.E.C peer_id)
        ∷ listeners config.proxy_mode config.transport_preference

  -- What is done with the connection of the session before: its old peers go, the others are dialled,
  -- and it gets the bundle.
  unfoldable pub leave_session : String → Bytes → Db → List Effect × Db
  leave_session peer_id secret old =
      let cleaned = cleanup_old_peers m.now (pos (7 * 24 * 60 * 60 * 1000)) old in
      (
        dial_all (map (λ p. p.1) (load_known_peers cleaned)),
        elim (new_bundle secret) [
          | err e ↦ cleaned
          | ok bundle_json ↦ save_prekey_bundle m.now peer_id bundle_json cleaned
        ],
      )

  -- The same, with the new database: both connections are to one file if the path is the same.
  unfoldable pub change_session : String → String → Bytes → Db → Node W → List Effect × Db
  change_session db_path peer_id secret db node = elim node.conn [
    | none ↦ ([], db)
    | some old ↦
        if is_shared db_path node
        then leave_session peer_id secret db
        else ((leave_session peer_id secret old).0, db)
  ]

  -- The session with an opened database and a keypair.
  unfoldable pub run_session : String → W.E.S.Keypair → Db → Node W → Option (List Effect × Node W)
  run_session db_path keypair db node =
      let peer_id = W.E.S.peer_id (W.E.S.public keypair) in
      let secret = W.ed25519_secret keypair in
      let config = load_full_config W.strings db in
      let network_config = network_config_of config in
      let governed =
        (ensure_default_room_governance W.E.S W.E.K W.E.roles W.E.grants m.now node.topic keypair
          peer_id db).1 in
      let (known, after) = change_session db_path peer_id secret governed node in
      if W.create_swarm network_config
      then Option.bind (open_room W m node.topic none governed) (λ room.
        Option.map
          (λ shown. (
            known
                ++ dial_all (first_addrs config.bootstrap_addrs)
                ++ (shown ++ announce_session node.topic peer_id secret network_config),
            record node {
              swarm = true;
              conn = some after;
              db_path = some db_path;
              peer_id = peer_id;
              offline_secret = secret;
              keypair = some keypair;
              room = room;
              cover_traffic = config.cover_traffic;
              msg_delay = config.msg_delay;
              mdns = config.mdns_enabled;
              config = config;
            },
          ))
          (show_history W m room))
      else none

  unfoldable pub start_session : String → Bool → Db → Node W → Option (List Effect × Node W)
  start_session password amnesic stored node =
      let db_path = db_path_of W.E.C password amnesic in
      let (opened, db) =
        init_db W.E.S W.E.P db_path (hex_string (W.E.C.sha256 (as_bytes password)))
          (file_at db_path stored node) in
      elim opened [
        | err e ↦ none
        | ok _ ↦ elim (W.E.P.load_or_generate_keypair (key_path_of W.E.C password amnesic)) [
          | err e ↦ none
          | ok keypair ↦ run_session db_path keypair db node
        ]
      ]
