-- ===== src/Node/Mailbox.antt =====
-- The messages of the mailbox, which is read again every 30 seconds
-- (alterchat-ui/src-tauri/src/lib.rs).
use alter_chat.Base.{
  String, Bool, false, not, ◌&&◌, List, [], ◌∷◌, ◌++◌, ◌≡◌, refl, arith, length, replicate,
}
use alter_chat.Base.Equality.{◌==◌, string_eq, bytes_eq}
use alter_chat.Base.Member.{any}
use alter_chat.Int.{ℤ}
use alter_chat.Db.Rows.{PrivateMessage}
use alter_chat.Db.Schema.{Db}
use alter_chat.Db.Table.{select, delete_where, insert_by, order_by}
use alter_chat.Db.Messages.{
  get_private_messages, save_private_message, same_time, is_expired, of_peer,
}
use alter_chat.Node.Types.{World, Moment, Effect, OfflineMsg}
use alter_chat.Node.Direct.{new_private_message, received}
use alter_chat.Node.Events.{is_repeated, take_offline, starts_with, first_chars}

module _ {R : Type 0} (p : R → Bool) where
  any-append : (xs ys : List R) → any p xs ≡ false → any p ys ≡ false → any p (xs ++ ys) ≡ false
  any-append [] ys none_x none_y = none_y
  any-append (x ∷ xs) ys none_x none_y =
      ground (arith, none_x, any-append xs ys (ground (arith, none_x)) none_y)

  any-select : (q : R → Bool) (xs : List R) → any p xs ≡ false → any p (select q xs) ≡ false
  unfolding select
  any-select q [] h = h
  any-select q (x ∷ xs) h = ground (arith, h, any-select q xs (ground (arith, h)))

  any-insert_by :
      (before : R → R → Bool) (r : R) (xs : List R)
      → p r ≡ false
      → any p xs ≡ false
      → any p (insert_by before r xs) ≡ false
  unfolding insert_by
  any-insert_by before r [] h hs = ground (arith, h)
  any-insert_by before r (x ∷ xs) h hs =
      ground (arith, h, hs, any-insert_by before r xs h (ground (arith, hs)))

  any-order_by :
      (before : R → R → Bool) (xs : List R) → any p xs ≡ false → any p (order_by before xs) ≡ false
  unfolding order_by
  any-order_by before [] h = h
  any-order_by before (x ∷ xs) h =
      any-insert_by before x (order_by before xs) (ground (arith, h))
        (any-order_by before xs (ground (arith, h)))

-- A message that matches none of the table is not among those of a query.
module _ (p : PrivateMessage → Bool) (now : ℤ) (peer : String) (db : Db)
    (none_there : any p db.private_messages ≡ false) where
  any-get_private_messages :
      (any p (get_private_messages now peer db).0 ≡ false)
      × (any p (get_private_messages now peer db).1.private_messages ≡ false)
  unfolding get_private_messages delete_where
  any-get_private_messages =
      let kept = any-select p (λ r. not (is_expired now r)) db.private_messages none_there in
      (any-order_by p _ _ (any-select p (of_peer peer) _ kept), kept)

-- Whether a text begins with the prefix of a message's nonce.
abbrev pub has_prefix : World → OfflineMsg → PrivateMessage → Bool
has_prefix W msg r = starts_with (first_chars 8 (W.hex_encode msg.nonce)) r.text

-- What reading the same message at each of some moments tells the windows.
unfoldable pub read_again : World → List Moment → OfflineMsg → Db → List Effect
read_again W [] msg db = []
read_again W (m ∷ ms) msg db =
    let (effects, after) = take_offline W m msg db in effects ++ read_again W ms msg after

-- A test that holds where another does holds nowhere if the other does not.
any-and :
    {R : Type 0} (t p : R → Bool) (xs : List R)
    → any p xs ≡ false
    → any (λ r. t r && p r) xs ≡ false
any-and t p [] h = refl
any-and t p (x ∷ xs) h = ground (arith, h, any-and t p xs (ground (arith, h)))

module _ (W : World) (msg : OfflineMsg) (marked : (msg.nonce == replicate 16 0) ≡ false)
    (plain : starts_with (first_chars 8 (W.hex_encode msg.nonce)) msg.text ≡ false) where
  take_offline_again :
      (m : Moment) (db : Db)
      → any (has_prefix W msg) db.private_messages ≡ false
      → ((take_offline W m msg db).0
          ≡ new_private_message
              (received msg.sender_peer_id msg.sender_nick msg.text msg.timestamp msg.ttl)
            ∷ [])
        × (any (has_prefix W msg) (take_offline W m msg db).1.private_messages ≡ false)
  unfolding take_offline is_repeated save_private_message
  take_offline_again m db none_there =
      let (unseen, kept) =
        any-get_private_messages (has_prefix W msg) m.now msg.sender_peer_id db none_there in
      let fresh : is_repeated W m msg (get_private_messages m.now msg.sender_peer_id db).0 ≡ false =
        (rw marked
          (any-and (λ r. same_time r.timestamp msg.timestamp) (has_prefix W msg) _ unseen)) in
      (rw fresh refl, rw fresh (any-append (has_prefix W msg) _ _ kept (ground (arith, plain))))

  -- A message left in the mailbox with a nonce that is not zero is delivered anew each time the
  -- mailbox is read, however often that is, unless its text or one that is stored begins with the
  -- first eight hexadecimal digits of the nonce.
  pub read_again_lem :
      (ms : List Moment) (db : Db)
      → any (has_prefix W msg) db.private_messages ≡ false
      → read_again W ms msg db
        ≡ replicate (length ms) (
            new_private_message
              (received msg.sender_peer_id msg.sender_nick msg.text msg.timestamp msg.ttl))
  unfolding read_again
  read_again_lem [] db none_there = refl
  read_again_lem (m ∷ ms) db none_there =
      let (told, kept) = take_offline_again m db none_there in
      rw (told, read_again_lem ms (take_offline W m msg db).1 kept) refl
