-- ===== src/Crdt/Expiry.antt =====
-- The messages that a room shows, and those whose time is over (alterchat-core/src/crdt.rs).
use alter_chat.Base.{
  ℕ, zero, suc, ◌+◌, String, true, Option, none, some, List, [], ◌∷◌, ◌≡◌, ◌⊎◌, refl, arith,
  some_inj, subst, sym, ap, ◌∙◌, if◌then◌else◌, inl, inr, Option-cases, Bool-cases,
}
use mathlib.Core.Option
use alter_chat.Base.Bytes.{Bytes}
use alter_chat.Base.Result.{Result, Result-cases, ok, err, map_ok, ok_inj}
use alter_chat.Int.{IsI64, i64-IsI64, ℤ, pos, ◌-ℤ◌, ◌*ℤ◌, ◌≤ℤ◌, ltb_ℤ}
use alter_chat.Crypto.{Crypto}
use alter_chat.Crdt.{
  Automerge, CrdtMessage, Room, has_expired, message_expired, read_message, messages_from,
  get_messages, unwrap,
}
use alter_chat.Base.Result.{bind-eq-some}

-- What a list of results with one more at its front comes from.
map_ok-eq-ok :
    {msg : CrdtMessage} (rest : Option (Result (List CrdtMessage))) {msgs : List CrdtMessage}
    → Option.map (map_ok (λ tail. msg ∷ tail)) rest ≡ some (ok msgs)
    → (tail : List CrdtMessage) × (rest ≡ some (ok tail)) × (msgs ≡ msg ∷ tail)
map_ok-eq-ok none h = absurd (ground (arith, h))
map_ok-eq-ok (some (err e)) h = absurd (ground (arith, h))
map_ok-eq-ok (some (ok tail)) h = (tail, refl, sym (ok_inj (some_inj h)))

-- What is shown of a message that says `words`: one with a ttl of t seconds has its text for t * 1000
-- milliseconds from its time on, and no longer; one without has it forever.
pub IsShownAs : ℤ → ℤ → Option ℤ → String → String → Type 0
IsShownAs now timestamp none words text = text ≡ words
IsShownAs now timestamp (some t) words text =
    ((now -ℤ timestamp) ≤ℤ (t *ℤ pos 1000) × (text ≡ words))
    ⊎ (ltb_ℤ (t *ℤ pos 1000) (now -ℤ timestamp) ≡ true × (text ≡ message_expired))

if-IsShownAs :
    (now timestamp : ℤ) (ttl : Option ℤ) (words : String)
    → ((t : ℤ) → ttl ≡ some t → IsI64 (t *ℤ pos 1000))
    → IsI64 (now -ℤ timestamp)
    → IsShownAs now timestamp ttl words
        (if has_expired now timestamp ttl then message_expired else words)
unfolding IsShownAs has_expired
if-IsShownAs now timestamp none words ttl_fits fits = refl
if-IsShownAs now timestamp (some t) words ttl_fits fits =
    rw (i64-IsI64 _ (ttl_fits t refl), i64-IsI64 _ fits)
      (elim (Bool-cases (ltb_ℤ (t *ℤ pos 1000) (now -ℤ timestamp))) [
        | inl over ↦ inr (over, ground (arith, over))
        | inr still ↦ inl (ground (arith, still), ground (arith, still))
      ])

module _ (A : Automerge) (now : ℤ) (doc : A.Doc) where
  -- An object of the document, and the message that is shown of it.
  pub IsShown : A.Obj → CrdtMessage → Type 0
  IsShown obj msg =
      (sender words : Option String) × (timestamp : Option ℤ) × (A.get_text doc obj "sender"
        ≡ ok sender)
      × (A.get_text doc obj "text" ≡ ok words)
      × (A.get_i64 doc obj "timestamp" ≡ ok timestamp)
      × (A.get_i64 doc obj "ttl" ≡ ok msg.ttl)
      × (msg.sender ≡ Option.get_or sender "")
      × (msg.timestamp ≡ Option.get_or timestamp (pos 0))
      × IsShownAs now msg.timestamp msg.ttl (Option.get_or words "") msg.text

  -- The messages of `n` indices of a list from `i` on, in order; an index without an object has none.
  pub AreShown : A.Obj → ℕ → ℕ → List CrdtMessage → Type 0
  AreShown list i zero msgs = msgs ≡ []
  AreShown list i (suc n) msgs =
      ((A.get_at doc list i ≡ ok none) × AreShown list (i + 1) n msgs)
      ⊎ ((obj : A.Obj) × (msg : CrdtMessage) × (rest : List CrdtMessage) × (A.get_at doc list i
            ≡ ok (some obj))
          × (msgs ≡ msg ∷ rest)
          × IsShown obj msg
          × AreShown list (i + 1) n rest)

  -- The times of the document are in range.
  unfoldable pub TtlsFit : Type 0
  TtlsFit = (obj : A.Obj) (t : ℤ) → A.get_i64 doc obj "ttl" ≡ ok (some t) → IsI64 (t *ℤ pos 1000)

  unfoldable pub AgesFit : Type 0
  AgesFit =
      (obj : A.Obj) (timestamp : Option ℤ)
      → A.get_i64 doc obj "timestamp" ≡ ok timestamp
      → IsI64 (now -ℤ Option.get_or timestamp (pos 0))

unwrap-eq-some : {T : Type 0} (r : Result T) {t : T} → unwrap r ≡ some t → r ≡ ok t
unwrap-eq-some (ok t) h = ap ok (some_inj h)
unwrap-eq-some (err e) h = absurd (ground (arith, h))

module _ (A : Automerge) (C : Crypto) (pbkdf2 : Bytes → Bytes → ℕ → Bytes) (now : ℤ) (doc : A.Doc)
    (ttls_fit : TtlsFit A now doc) (ages_fit : AgesFit A now doc) where
  read_message-IsShown :
      (obj : A.Obj) (msg : CrdtMessage)
      → read_message A C pbkdf2 now doc obj ≡ some msg
      → IsShown A now doc obj msg
  unfolding read_message IsShown TtlsFit AgesFit
  read_message-IsShown obj msg h =
      let (sender, h₀, k₀) = bind-eq-some (unwrap (A.get_text doc obj "sender")) _ h in
      let (words, h₁, k₁) = bind-eq-some (unwrap (A.get_text doc obj "text")) _ k₀ in
      let (timestamp, h₂, k₂) = bind-eq-some (unwrap (A.get_i64 doc obj "timestamp")) _ k₁ in
      let (ttl, h₃, k₃) = bind-eq-some (unwrap (A.get_i64 doc obj "ttl")) _ k₂ in
      let ttl_at = unwrap-eq-some (A.get_i64 doc obj "ttl") h₃ in
      let time_at = unwrap-eq-some (A.get_i64 doc obj "timestamp") h₂ in
      subst (IsShown A now doc obj) (some_inj k₃) (
        sender,
        words,
        timestamp,
        unwrap-eq-some (A.get_text doc obj "sender") h₀,
        unwrap-eq-some (A.get_text doc obj "text") h₁,
        time_at,
        ttl_at,
        refl,
        refl,
        if-IsShownAs now (Option.get_or timestamp (pos 0)) ttl (Option.get_or words "")
            (λ t e. ttls_fit obj t (ttl_at ∙ ap ok e)) (ages_fit obj timestamp time_at),
      )

  messages_from-AreShown :
      (list : A.Obj) (n i : ℕ) (msgs : List CrdtMessage)
      → messages_from A C pbkdf2 now doc list n i ≡ some (ok msgs)
      → AreShown A now doc list i n msgs
  unfolding messages_from AreShown
  messages_from-AreShown list zero i msgs h = sym (ok_inj (some_inj h))
  messages_from-AreShown list (suc n) i msgs h = elim (Result-cases (A.get_at doc list i)) [
    | inl (e, broken) ↦ absurd (ground (arith, h, broken))
    | inr (found, got) ↦ elim (Option-cases found) [
      | inl gap ↦ inl (
        got ∙ ap ok gap,
        messages_from-AreShown list n (i + 1) msgs (ground (arith, h, got, gap)),
      )
      | inr (obj, there) ↦ elim (Option-cases (read_message A C pbkdf2 now doc obj)) [
        | inl e ↦ absurd (ground (arith, h, got, there, e))
        | inr (msg, e) ↦
            let h₁ : Option.map (map_ok (λ tail. msg ∷ tail))
                  (messages_from A C pbkdf2 now doc list n (i + 1))
                ≡ some (ok msgs) =
              ground (arith, h, got, there, e) in
            let (rest, ran, same) =
              map_ok-eq-ok (messages_from A C pbkdf2 now doc list n (i + 1)) h₁ in
            inr (
              obj,
              msg,
              rest,
              got ∙ ap ok there,
              same,
              read_message-IsShown obj msg e,
              messages_from-AreShown list n (i + 1) rest ran,
            )
      ]
    ]
  ]

-- What a room shows is one message for each object of its list, in order, with the sender and the
-- times that are stored; its text is that which is stored as long as its age in milliseconds is at
-- most 1000 for each second of its ttl, or if it has no ttl, and otherwise the text that says that
-- it has expired: if the room has a list, no reading panics or fails, and the ages and the ttls in
-- milliseconds of the document are in the range of an i64.
pub get_messages-AreShown :
    (A : Automerge) (C : Crypto) (pbkdf2 : Bytes → Bytes → ℕ → Bytes) (now : ℤ) (room : Room A)
    (list : A.Obj) (msgs : List CrdtMessage)
    → TtlsFit A now room.doc
    → AgesFit A now room.doc
    → A.get_object room.doc A.root "messages" ≡ ok (some list)
    → get_messages A C pbkdf2 now room ≡ some (ok msgs)
    → AreShown A now room.doc list 0 (A.length room.doc list) msgs
unfolding get_messages
get_messages-AreShown A C pbkdf2 now room list msgs ttls_fit ages_fit got h =
    messages_from-AreShown A C pbkdf2 now room.doc ttls_fit ages_fit list (A.length room.doc list) 0
      msgs (ground (arith, h, got))
