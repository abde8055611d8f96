-- ===== src/Node/Received.antt =====
-- What a private message that could be read does to the database
-- (alterchat-ui/src-tauri/src/lib.rs).
use alter_chat.Base.{
  String, false, Option, none, some, ◌≡◌, refl, ap, sym, some_inj, arith, inl, inr, Option-cases,
}
use mathlib.Core.Option
use alter_chat.Base.Bytes.{Bytes}
use alter_chat.Base.Result.{Result, ok, err, bind-eq-some}
use alter_chat.Int.{ℤ}
use alter_chat.Ratchet.{RatchetState, RatchetEnvelope, ratchet_decrypt}
use alter_chat.DoubleRatchet.{DrState, DrEnvelope, decrypt}
use alter_chat.Db.Schema.{Db}
use alter_chat.Db.Messages.{save_private_message}
use alter_chat.Desk.Sessions.{
  load_or_init_ratchet_state, save_ratchet_state, load_or_init_dr_state, save_dr_state,
}
use alter_chat.Node.Types.{World, Moment, PmPayload}
use alter_chat.Node.Direct.{
  received, friend_key, ltb_id, receive_ratchet_message, receive_x3dh_message,
}

-- The end of both handlers: the text is read and the state is saved.
finish :
    {T : Type 0} (W : World) (peer nick : String) (timestamp : ℤ) (ttl : Option ℤ)
    (save : T → Db → Db) (db : Db) (r : Result Bytes × T) {out : PmPayload × Db}
    → (elim (r.0) as (λ _. Option (PmPayload × Db)) [
      | err e ↦ none
      | ok bytes ↦
          Option.map
            (λ words. (
              received peer nick words timestamp ttl,
              save r.1 (save_private_message peer false words timestamp ttl db),
            ))
            (W.from_utf8 bytes)
    ])
      ≡ some out
    → (words : String) × (st : T) × (bytes : Bytes) × (r ≡ (ok bytes, st))
      × (W.from_utf8 bytes ≡ some words)
      × (out.0 ≡ received peer nick words timestamp ttl)
      × (out.1 ≡ save st (save_private_message peer false words timestamp ttl db))
finish W peer nick timestamp ttl save db (err e, st) h = ground arith
finish W peer nick timestamp ttl save db (ok bytes, st) h =
    elim (Option-cases (W.from_utf8 bytes)) [
      | inl e ↦ absurd (ground (arith, e, h))
      | inr (words, e) ↦
          let same = some_inj (rw e at h) in
          (
            words,
            st,
            bytes,
            refl,
            e,
            ap (λ (p : PmPayload × Db). p.0) (sym same),
            ap (λ (p : PmPayload × Db). p.1) (sym same),
          )
    ]

module _ (W : World) (m : Moment) (my_peer_id : String) (secret : Bytes) (peer : String)
    (envelope : Bytes) (nick : String) (timestamp : ℤ) (ttl : Option ℤ) (db : Db) where
  -- A message under the symmetric ratchet that could be read.
  pub receive_ratchet_message_inv :
      {out : PmPayload × Db}
      → receive_ratchet_message W m my_peer_id secret peer envelope nick timestamp ttl db ≡ some out
      → (pk : Bytes) × (e : RatchetEnvelope) × (words : String) × (st : RatchetState)
        × (bytes : Bytes) × (friend_key W peer db ≡ some pk)
        × (W.ratchet_envelopes.deserialize envelope ≡ some e)
        × (ratchet_decrypt W.E.C e
              (load_or_init_ratchet_state W.E.C W.ratchets peer my_peer_id secret pk db)
            ≡ (ok bytes, st))
        × (W.from_utf8 bytes ≡ some words)
        × (out.0 ≡ received peer nick words timestamp ttl)
        × (out.1
            ≡ save_ratchet_state W.E.C W.ratchets m.now peer st
                (save_private_message peer false words timestamp ttl db))
  unfolding receive_ratchet_message
  receive_ratchet_message_inv h =
      let (pk, known, h₁) = bind-eq-some _ _ h in
      let (e, parsed, h₂) = bind-eq-some _ _ h₁ in
      let (words, st, bytes, opened, read, msg, after) =
        finish W peer nick timestamp ttl (λ st. save_ratchet_state W.E.C W.ratchets m.now peer st)
          db _ h₂ in
      (pk, e, words, st, bytes, known, parsed, opened, read, msg, after)

  -- A message under the Double Ratchet that could be read.
  pub receive_x3dh_message_inv :
      {out : PmPayload × Db}
      → receive_x3dh_message W m my_peer_id secret peer envelope nick timestamp ttl db ≡ some out
      → (pk : Bytes) × (e : DrEnvelope) × (words : String) × (st : DrState) × (bytes : Bytes)
        × (friend_key W peer db ≡ some pk)
        × (W.dr_envelopes.deserialize envelope ≡ some e)
        × (decrypt W.E.C (m.draw 1) e (
              load_or_init_dr_state W.E.C W.sessions
                (m.draw 0)
                peer
                secret
                pk
                (ltb_id peer my_peer_id)
                db)
            ≡ (ok bytes, st))
        × (W.from_utf8 bytes ≡ some words)
        × (out.0 ≡ received peer nick words timestamp ttl)
        × (out.1
            ≡ save_dr_state W.E.C W.sessions m.now peer st
                (save_private_message peer false words timestamp ttl db))
  unfolding receive_x3dh_message
  receive_x3dh_message_inv h =
      let (pk, known, h₁) = bind-eq-some _ _ h in
      let (e, parsed, h₂) = bind-eq-some _ _ h₁ in
      let (words, st, bytes, opened, read, msg, after) =
        finish W peer nick timestamp ttl (λ st. save_dr_state W.E.C W.sessions m.now peer st) db _
          h₂ in
      (pk, e, words, st, bytes, known, parsed, opened, read, msg, after)
