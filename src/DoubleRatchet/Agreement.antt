-- ===== src/DoubleRatchet/Agreement.antt =====
-- Two parties whose Diffie-Hellman ratchets turn alternately hold the same root key and chains.
use mathlib.Core.Path.{subst₂}
use alter_chat.Base.Result.{ok}
use alter_chat.Base.Bytes.{Bytes}
use alter_chat.Base.{refl, sym, subst, ◌+◌, ◌^◌, ◌<◌, ◌≡◌, some, arith}
use alter_chat.Crypto.{Crypto, IsLawful}
use alter_chat.DoubleRatchet.{
  DrState, DrEnvelope, kdf_rk, init_alice, init_bob, encrypt, dh_ratchet,
}
use alter_chat.DoubleRatchet.Chain.{chain_key}
use alter_chat.DoubleRatchet.Order.{encrypt-IsSent, Sends}

module _ (C : Crypto) where
  -- The keys that `a` derives when it turns its ratchet against `b`: the new root, and the chain.
  abbrev pub turn : DrState → DrState → Bytes × Bytes
  turn a b = kdf_rk C b.root_key (C.diffie_hellman a.dh_send b.dh_send_pub)

  -- `a` has turned its ratchet last, and `b` has yet to follow.
  pub record IsAhead (a b : DrState) : Type 0 where
    pub own : a.dh_send_pub ≡ C.public_key a.dh_send
    pub other : b.dh_send_pub ≡ C.public_key b.dh_send
    pub root : a.root_key ≡ (turn a b).0
    pub sends : Sends C a.dh_send_pub (turn a b).1 a

  -- The pairs of states of a session: it starts by `init_alice` and `init_bob`, either party may
  -- encrypt, and the one behind turns its ratchet on the other's public key.
  pub data Session (sk : Bytes) : DrState → DrState → Type 0 where
    start :
        {a b : DrState} (fresh bob_secret : Bytes)
        → a ≡ init_alice C fresh sk (C.public_key bob_secret)
        → b ≡ init_bob C sk bob_secret (C.public_key bob_secret)
        → Session sk a b
    ahead_sends :
        {a b a' : DrState} (nonce p : Bytes) {e : DrEnvelope}
        → Session sk a b
        → a.n_send + 1 < 2 ^ 64
        → encrypt C nonce p a ≡ (ok e, a')
        → Session sk a' b
    behind_sends :
        {a b b' : DrState} (nonce p : Bytes) {e : DrEnvelope}
        → Session sk a b
        → encrypt C nonce p b ≡ (ok e, b')
        → Session sk a b'
    behind_turns :
        {a b b' : DrState} (fresh : Bytes)
        → Session sk a b
        → b' ≡ dh_ratchet C fresh a.dh_send_pub b
        → Session sk b' a

  -- Encrypting moves only the sending chain and its counter.
  pub record SameRatchet (a b : DrState) : Type 0 where
    pub secret : a.dh_send ≡ b.dh_send
    pub public : a.dh_send_pub ≡ b.dh_send_pub
    pub root : a.root_key ≡ b.root_key

  pub encrypt-SameRatchet :
      (nonce p : Bytes) (st : DrState) {e : DrEnvelope} {st' : DrState}
      → encrypt C nonce p st ≡ (ok e, st')
      → SameRatchet st' st
  unfolding encrypt
  encrypt-SameRatchet nonce p st h = ground arith

  pub init-IsAhead :
      (fresh sk bob_secret : Bytes)
      → IsAhead
          (init_alice C fresh sk (C.public_key bob_secret))
          (init_bob C sk bob_secret (C.public_key bob_secret))
  unfolding init_alice init_bob chain_key
  init-IsAhead fresh sk bob_secret = ground arith

  Sends-SameRatchet :
      (a a' b : DrState)
      → SameRatchet a' a
      → Sends C a.dh_send_pub (turn a b).1 a'
      → Sends C a'.dh_send_pub (turn a' b).1 a'
  Sends-SameRatchet a a' b r s = record {
    sender = refl;
    chain =
        subst
          (λ x.
            a'.ck_send
            ≡ some
                (chain_key C (kdf_rk C b.root_key (C.diffie_hellman x b.dh_send_pub)).1 a'.n_send))
          (sym r.secret) s.chain;
  }

  encrypt-IsAhead :
      (nonce p : Bytes) (a b : DrState) {e : DrEnvelope} {a' : DrState}
      → IsAhead a b
      → a.n_send + 1 < 2 ^ 64
      → encrypt C nonce p a ≡ (ok e, a')
      → IsAhead a' b
  encrypt-IsAhead nonce p a b {a' = a'} h room e =
      let r = encrypt-SameRatchet nonce p a e in
      let (_, _, s, _) = encrypt-IsSent C a.dh_send_pub (turn a b).1 nonce p a h.sends room e in
      record {
        own = ground (arith, h.own);
        other = h.other;
        root = ground (arith, h.root);
        sends = Sends-SameRatchet a a' b r s;
      }

  encrypt-IsAhead_behind :
      (nonce p : Bytes) (a b : DrState) {e : DrEnvelope} {b' : DrState}
      → IsAhead a b
      → encrypt C nonce p b ≡ (ok e, b')
      → IsAhead a b'
  encrypt-IsAhead_behind nonce p a b {b' = b'} h e =
      let r = encrypt-SameRatchet nonce p b e in
      let same : turn a b' ≡ turn a b = ground arith in
      record {
        own = h.own;
        other = ground (arith, h.other);
        root = ground (arith, h.root);
        sends = subst (λ t. Sends C a.dh_send_pub t.1 a) (sym same) h.sends;
      }

  module _ (L : IsLawful C) where
    -- The one behind derives the root and the receiving chain of the other, and is then ahead.
    pub dh_ratchet-IsAhead :
        (a b : DrState) (fresh : Bytes)
        → IsAhead a b
        → let b' = dh_ratchet C fresh a.dh_send_pub b in
          IsAhead b' a × (b'.ck_recv ≡ some (turn a b).1) × (b'.dh_recv ≡ some a.dh_send_pub)
    unfolding dh_ratchet chain_key
    dh_ratchet-IsAhead a b fresh h =
        let same : kdf_rk C b.root_key (C.diffie_hellman b.dh_send a.dh_send_pub) ≡ turn a b =
          ground (arith, L.dh_comm b.dh_send a.dh_send) in
        (
          record {
            own = refl;
            other = h.own;
            root = ground arith;
            sends = record { sender = refl; chain = ground arith };
          },
          ground arith,
          refl,
        )

    -- In every session the party ahead holds the root key and the sending chain that the other
    -- derives when it turns its ratchet.
    pub Session-IsAhead : {sk : Bytes} {a b : DrState} → Session sk a b → IsAhead a b
    Session-IsAhead {sk} (start fresh bob_secret ea eb) =
        subst₂ IsAhead (sym ea) (sym eb) (init-IsAhead fresh sk bob_secret)
    Session-IsAhead (ahead_sends {a = a} {b = b} nonce p s room e) =
        encrypt-IsAhead nonce p a b (Session-IsAhead s) room e
    Session-IsAhead (behind_sends {a = a} {b = b} nonce p s e) =
        encrypt-IsAhead_behind nonce p a b (Session-IsAhead s) e
    Session-IsAhead (behind_turns {a = a} {b = b} fresh s e) =
        subst (λ x. IsAhead x a) (sym e) (dh_ratchet-IsAhead a b fresh (Session-IsAhead s)).0

    -- However a session has gone, a turn of the party behind gives it the chain that the party
    -- ahead sends on.
    pub Session-agrees :
        {sk : Bytes} (a b : DrState) (fresh : Bytes)
        → Session sk a b
        → let b' = dh_ratchet C fresh a.dh_send_pub b in
          (ck : Bytes) × (b'.ck_recv ≡ some ck)
          × (a.ck_send ≡ some (chain_key C ck a.n_send))
          × (b'.n_recv ≡ 0)
    unfolding dh_ratchet
    Session-agrees a b fresh s =
        let h = Session-IsAhead s in
        ((turn a b).1, (dh_ratchet-IsAhead a b fresh h).1, h.sends.chain, refl)
