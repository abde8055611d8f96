-- ===== src/Db/Messages.antt =====
-- Friends, private messages, the search index and ratchet states in the database
-- (alterchat-ui/src-tauri/src/db.rs). The time `now` of `now_ms` is an argument. The deletions
-- whose errors the program drops (`.ok()`) are taken to succeed.
use alter_chat.Base.{
  String, Bool, false, not, ◌&&◌, Option, none, some, List, [], ◌∷◌, ◌++◌, if◌then◌else◌,
}
use mathlib.Core.Option
use alter_chat.Base.Member.{any}
use alter_chat.Base.Equality.{bytes_eq, ◌==◌, string_eq}
use alter_chat.Base.Bytes.{Bytes}
use alter_chat.Int.{ℤ, pos, ◌+ℤ◌, ◌*ℤ◌, ltb_ℤ, leb_ℤ}
use alter_chat.Db.Table.{find, upsert, select, delete_where, order_by}
use alter_chat.Db.Rows.{Friend, PrivateMessage, RatchetRow}
use alter_chat.Db.Schema.{Db}

abbrev pub friend_key : Friend → String
friend_key r = r.peer_id

abbrev pub ratchet_key : RatchetRow → String
ratchet_key r = r.peer_id

-- The defaults of the other columns.
abbrev pub new_friend : String → String → Option String → Friend
new_friend peer_id nickname offline_pubkey = record {
  peer_id = peer_id;
  nickname = nickname;
  offline_pubkey = offline_pubkey;
  trust_level = pos 0;
  blocked = false;
  muted = false;
  notes = none;
}

-- `COALESCE`
abbrev pub coalesce : {A : Type 0} → Option A → Option A → Option A
coalesce (some a) b = some a
coalesce none b = b

unfoldable pub add_friend : String → String → Option String → Db → Db
add_friend peer_id nickname offline_pubkey db = record db {
  friends =
      upsert friend_key
        (λ f. record f {
          nickname = nickname;
          offline_pubkey = coalesce offline_pubkey f.offline_pubkey;
        })
        (new_friend peer_id nickname offline_pubkey) db.friends;
}

unfoldable pub remove_friend : String → Db → Db
remove_friend peer_id db = record db {
  friends = delete_where (λ f. f.peer_id == peer_id) db.friends;
}

unfoldable pub get_friends : Db → List Friend
get_friends db = db.friends

unfoldable pub save_private_message : String → Bool → String → ℤ → Option ℤ → Db → Db
save_private_message peer_id sender_is_me text timestamp ttl db = record db {
  private_messages =
      db.private_messages
      ++ record {
        peer_id = peer_id;
        sender_is_me = sender_is_me;
        text = text;
        timestamp = timestamp;
        ttl = ttl;
      }
        ∷ [];
  message_search =
      db.message_search
      ++ record {
        scope = "dm";
        peer_id = peer_id;
        room_id = "";
        sender = if sender_is_me then "me" else "peer";
        text = text;
        timestamp = timestamp;
      }
        ∷ [];
}

-- `ttl IS NOT NULL AND timestamp + (ttl * 1000) < now`
unfoldable pub is_expired : ℤ → PrivateMessage → Bool
is_expired now m =
    Option.get_or (Option.map (λ ttl. ltb_ℤ (m.timestamp +ℤ ttl *ℤ pos 1000) now) m.ttl) false

abbrev pub of_peer : String → PrivateMessage → Bool
of_peer peer_id m = m.peer_id == peer_id

-- Equality of two timestamps.
abbrev pub same_time : ℤ → ℤ → Bool
same_time a b = leb_ℤ a b && leb_ℤ b a

-- The three statements: expired messages go, then the index's rows of the peer that have no message
-- of the same time, then the query.
unfoldable pub get_private_messages : ℤ → String → Db → List PrivateMessage × Db
get_private_messages now peer_id db =
    let messages = delete_where (is_expired now) db.private_messages in
    let mine = select (of_peer peer_id) messages in
    let index =
      delete_where
        (λ r.
          r.scope == "dm"
          && (r.peer_id == peer_id && not (any (λ m. same_time m.timestamp r.timestamp) mine)))
        db.message_search in
    (
      order_by (λ a b. ltb_ℤ a.timestamp b.timestamp) mine,
      record db { private_messages = messages; message_search = index },
    )

unfoldable pub index_room_message : String → String → String → ℤ → Db → Db
index_room_message room_id sender text timestamp db = record db {
  message_search =
      db.message_search
      ++ record {
        scope = "room";
        peer_id = "";
        room_id = room_id;
        sender = sender;
        text = text;
        timestamp = timestamp;
      }
        ∷ [];
}

unfoldable pub cleanup_room_search : String → ℤ → Db → Db
cleanup_room_search room_id older_than_ms db = record db {
  message_search =
      delete_where
        (λ r. r.scope == "room" && (r.room_id == room_id && ltb_ℤ r.timestamp older_than_ms))
        db.message_search;
}

unfoldable pub load_ratchet_state : String → Db → Option Bytes
load_ratchet_state peer_id db =
    Option.map (λ row. row.state_blob) (find ratchet_key peer_id db.ratchet_states)

unfoldable pub save_ratchet_state : ℤ → String → Bytes → Db → Db
save_ratchet_state now peer_id state_blob db = record db {
  ratchet_states =
      upsert ratchet_key (λ r. record r { state_blob = state_blob; updated_at = now })
        (record { peer_id = peer_id; state_blob = state_blob; updated_at = now }) db.ratchet_states;
}
