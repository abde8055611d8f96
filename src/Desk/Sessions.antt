-- ===== src/Desk/Sessions.antt =====
-- The ratchet states of peers, kept in the database (alterchat-ui/src-tauri/src/lib.rs). The fresh
-- secret of `init_alice` and the time are arguments. A failure to store a state is dropped by the
-- program; here only printing can fail.
use alter_chat.Base.{String, ◌<>◌, Bool, Option, none, some, if◌then◌else◌, ◌≡◌, refl, arith}
use mathlib.Core.Option
use alter_chat.Base.Bytes.{Bytes}
use alter_chat.Base.Equality.{string_eq, ==_refl}
use alter_chat.Int.{ℤ}
use alter_chat.Crypto.{Crypto}
use alter_chat.Ratchet.{RatchetState, for_peer_pair, derive_static_shared_secret}
use alter_chat.DoubleRatchet.{DrState, init_alice, init_bob}
use alter_chat.Envelope.{get_public_key}
use alter_chat.Db.Schema.{Db}
use alter_chat.Db.Table.Laws.{find-upsert}
use alter_chat.Db.Messages.{ratchet_key, load_ratchet_state}
use alter_chat.Db.Messages

-- `bincode` at a state.
pub record Bincode (T : Type 0) : Type 0 where
  pub serialize : T → Option Bytes
  pub deserialize : Bytes → Option T

-- The state that the database has, if there is one and it can be read.
unfoldable pub stored_state : {T : Type 0} → Bincode T → String → Db → Option T
stored_state B key db = Option.bind (load_ratchet_state key db) B.deserialize

unfoldable pub store_state : {T : Type 0} → Bincode T → ℤ → String → T → Db → Db
store_state B now key state db = elim (B.serialize state) [
  | none ↦ db
  | some blob ↦ Messages.save_ratchet_state now key blob db
]

module _ (C : Crypto) where
  unfoldable pub load_or_init_ratchet_state :
      Bincode RatchetState → String → String → Bytes → Bytes → Db → RatchetState
  load_or_init_ratchet_state B peer_id my_peer_id my_secret peer_pubkey db =
      Option.get_or (stored_state B peer_id db)
        (for_peer_pair C (derive_static_shared_secret C my_secret peer_pubkey) my_peer_id peer_id)

  unfoldable pub save_ratchet_state : Bincode RatchetState → ℤ → String → RatchetState → Db → Db
  save_ratchet_state B now peer_id state db = store_state B now peer_id state db

  unfoldable pub load_or_init_dr_state :
      Bincode DrState → Bytes → String → Bytes → Bytes → Bool → Db → DrState
  load_or_init_dr_state B fresh peer_id my_secret peer_pubkey is_initiator db =
      Option.get_or (stored_state B ("dr:" <> peer_id) db) (
        let sk = derive_static_shared_secret C my_secret peer_pubkey in
        if is_initiator
        then init_alice C fresh sk peer_pubkey
        else init_bob C sk my_secret (get_public_key C my_secret))

  unfoldable pub save_dr_state : Bincode DrState → ℤ → String → DrState → Db → Db
  save_dr_state B now peer_id state db = store_state B now ("dr:" <> peer_id) state db

-- A state that was stored is the one that is there, if what is serialized can be read back.
pub stored_state-store_state :
    {T : Type 0} (B : Bincode T) (now : ℤ) (key : String) (state : T) (db : Db) {blob : Bytes}
    → B.serialize state ≡ some blob
    → B.deserialize blob ≡ some state
    → stored_state B key (store_state B now key state db) ≡ some state
unfolding stored_state store_state load_ratchet_state Messages.save_ratchet_state Option.bind
stored_state-store_state B now key state db {blob} printed read = ground (
  arith,
  printed,
  read,
  find-upsert ratchet_key (λ r. record r { state_blob = blob; updated_at = now })
      (record { peer_id = key; state_blob = blob; updated_at = now }) db.ratchet_states key
      (λ x. refl),
  ==_refl key,
)
