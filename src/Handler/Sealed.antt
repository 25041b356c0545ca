-- ===== src/Handler/Sealed.antt =====
-- The server stores no plaintext in an encrypted room.
use Prim.Native.Char.{code}
use cowchat4win.Base.{
  ℕ, suc, String, ◌≡◌, refl, sym, ap, ◌∙◌, Bool, true, false, ◌==◌, subst, Option, none, some, List,
  [], ◌∷◌, ◌++◌, arith, any, Bool-cases, Option-cases, Result-cases, inl, inr,
}
use cowchat4win.Base.Tables.{find_row}
use cowchat4win.Base.Dict.{insert, contains_key}
use cowchat4win.Protocol.{Json, Frame, obj, field, text, end}
use cowchat4win.Store.{Store, RoomRow, MessageRow, to_millis}
use cowchat4win.Store.Rooms.{has_room_id, get_room, query_room_by_id}
use cowchat4win.Store.Messages.{insert_message, insert_message_row, ensure_sequence, high_water}
use cowchat4win.Store.Messages.Sequence.{insert_message_row-lem}
use cowchat4win.Broker.{is_agent_in_room}
use cowchat4win.Handler.{
  Server, SendMessagePayload, ThinkingPayload, starts_with, is_ciphertext, room_is_encrypted,
  reject_plaintext_in_encrypted_room, check_limits, accept_message, handle_send_message,
  handle_thinking,
}

-- The code points of a text.
abbrev pub points : String → List ℕ
points String.[] = []
points (String.◌∷◌ c s) = code c ∷ points s

-- The content starts with the five code points of `cow1:`.
abbrev pub Marked : String → Type 0
Marked content = (rest : List ℕ) × (points content ≡ 99 ∷ 111 ∷ 119 ∷ 49 ∷ 58 ∷ rest)

-- The room has a row, and the row says that it is encrypted.
abbrev pub encrypted_row : String → List RoomRow → Bool
encrypted_row k rooms = elim (find_row (λ (r : RoomRow). r.room_id == k) rooms) [
  | none ↦ false
  | some r ↦ r.encrypted
]

-- What an operator can read of an encrypted room is the marker of a ciphertext and what follows it.
abbrev AllMarked : List RoomRow → List MessageRow → Type 0
AllMarked rooms [] = Unit
AllMarked rooms (m ∷ ms) =
    (encrypted_row m.room_id rooms ≡ true → Marked m.content) × AllMarked rooms ms

abbrev pub IsSealed : Store → Type 0
IsSealed s = AllMarked s.rooms s.messages

append-AllMarked :
    (rooms : List RoomRow) (ms : List MessageRow) (m : MessageRow)
    → AllMarked rooms ms
    → (encrypted_row m.room_id rooms ≡ true → Marked m.content)
    → AllMarked rooms (ms ++ m ∷ [])
append-AllMarked rooms [] m h n = (n, tt)
append-AllMarked rooms (x ∷ ms) m (y, h) n = (y, append-AllMarked rooms ms m h n)

points-starts_with :
    (p s : String) → starts_with p s ≡ true → (rest : List ℕ) × (points s ≡ points p ++ rest)
unfolding starts_with
points-starts_with String.[] s h = (points s, refl)
points-starts_with (String.◌∷◌ c p) String.[] h = absurd (ground (arith, h))
points-starts_with (String.◌∷◌ c p) (String.◌∷◌ d s) h =
    let same : code d ≡ code c = ground (arith, h) in
    let (rest, e) = points-starts_with p s (ground (arith, h)) in
    (rest, ap (λ x. x ∷ points s) same ∙ ap (λ xs. code c ∷ xs) e)

is_ciphertext-Marked : (s : String) → is_ciphertext s ≡ true → Marked s
unfolding is_ciphertext
is_ciphertext-Marked s h = points-starts_with "cow1:" s h

-- What passes the guard has the marker, in an encrypted room.
reject_plaintext-Marked :
    (content room : String) (s : Store)
    → reject_plaintext_in_encrypted_room content room s ≡ none
    → encrypted_row room s.rooms ≡ true
    → Marked content
unfolding reject_plaintext_in_encrypted_room room_is_encrypted get_room query_room_by_id
reject_plaintext-Marked content room s fine on =
    elim (Option-cases (find_row (has_room_id room) s.rooms)) [
      | inl e ↦ absurd (ground (arith, on, e))
      | inr (r, e) ↦ is_ciphertext-Marked content (ground (arith, on, e, fine))
    ]

ensure_sequence-same :
    (k : String) (s s' : Store)
    → ensure_sequence k s ≡ some s'
    → (s'.rooms ≡ s.rooms) × (s'.messages ≡ s.messages)
unfolding ensure_sequence
ensure_sequence-same k s s' e = elim (Bool-cases (contains_key k s.sequences)) [
  | inl c ↦
      let same : some s ≡ some s' = ground (arith, c, e) in
      let eq : s ≡ s' = cc in
      (ap (λ (t : Store). t.rooms) (sym eq), ap (λ (t : Store). t.messages) (sym eq))
  | inr c ↦ elim (Bool-cases (any (has_room_id k) s.rooms)) [
    | inr r ↦ absurd (ground (arith, c, r, e))
    | inl r ↦
        let t : Store = record s { sequences = insert k 0 s.sequences } in
        let same : some t ≡ some s' = ground (arith, c, r, e) in
        let eq : t ≡ s' = cc in
        (ap (λ (t : Store). t.rooms) (sym eq), ap (λ (t : Store). t.messages) (sym eq))
  ]
]

insert_message-IsSealed :
    (now : ℕ) (id room agent name content : String) (reply : Option String) (meta : Json)
    (s : Store)
    → reject_plaintext_in_encrypted_room content room s ≡ none
    → IsSealed s
    → IsSealed (insert_message now id room agent name content reply meta s).1
unfolding insert_message
insert_message-IsSealed now id room agent name content reply meta s fine h =
    elim (Option-cases (ensure_sequence room s)) [
      | inl e ↦ rw (e, insert_message) h
      | inr (s₁, e) ↦
          let row : MessageRow = record {
            message_id = id;
            room_id = room;
            agent_id = agent;
            agent_name = name;
            content = content;
            reply_to_message = reply;
            metadata = meta;
            created_at = to_millis now;
            seq = suc (high_water room s₁);
          } in
          elim (Option-cases (insert_message_row row s₁)) [
            | inl f ↦ rw (e, f, insert_message) h
            | inr (s₂, f) ↦
                let shape = insert_message_row-lem row s₁ s₂ f in
                let (rooms, messages) = ensure_sequence-same room s s₁ e in
                let rooms₂ : s₂.rooms ≡ s.rooms = ap (λ (t : Store). t.rooms) shape ∙ rooms in
                let messages₂ : s₂.messages ≡ s.messages ++ row ∷ [] =
                  ap (λ (t : Store). t.messages) shape ∙ ap (λ ms. ms ++ row ∷ []) messages in
                rw (e, f, insert_message)
                  (subst (λ rs. AllMarked rs s₂.messages) (sym rooms₂)
                    (subst (AllMarked s.rooms) (sym messages₂) (
                      append-AllMarked s.rooms s.messages row h
                        (reject_plaintext-Marked content room s fine))))
          ]
    ]

module _ {Sender : Type 0} where
  accept_message-IsSealed :
      (now : ℕ) (id room agent name content : String) (reply : Option String) (meta : Json)
      (key : String) (no_auth : Bool) (srv : Server Sender)
      → IsSealed srv.store
      → IsSealed (accept_message now id room agent name content reply meta key no_auth srv).1.store
  unfolding accept_message
  accept_message-IsSealed now id room agent name content reply meta key no_auth srv h =
      elim (Bool-cases (is_agent_in_room srv.broker agent room)) [
        | inr a ↦ rw (a, accept_message) h
        | inl a ↦ elim (Option-cases (reject_plaintext_in_encrypted_room content room srv.store)) [
          | inr (e, b) ↦ rw (a, b, accept_message) h
          | inl b ↦
              elim (Option-cases (check_limits now content key no_auth srv.store srv.limiter).0) [
                | inr (e, c) ↦ rw (a, b, c, accept_message) h
                | inl c ↦
                    let kept =
                      insert_message-IsSealed now id room agent name content reply meta srv.store b
                        h in
                    elim (Result-cases
                      (insert_message now id room agent name content reply meta srv.store).0) [
                        | inl (msg, d) ↦ rw (a, b, c, d, accept_message) kept
                        | inr (e, d) ↦ rw (a, b, c, d, accept_message) kept
                      ]
              ]
        ]
      ]

-- A message or a thought, with what serde made of it: the time, the new id, the agent, its name and
-- its key.
pub data SendCall : Type 0 where
  sends : ℕ → String → Option SendMessagePayload → String → String → String → SendCall
  thinks : ℕ → String → Option ThinkingPayload → String → String → String → SendCall

module _ {Sender : Type 0} (try_send : Sender → Frame → Option Sender) (no_auth : Bool) where
  abbrev pub send_step : Server Sender → SendCall → Server Sender
  send_step srv (sends now id payload agent name key) =
      (handle_send_message try_send now id payload agent name key no_auth srv).1
  send_step srv (thinks now id payload agent name key) =
      (handle_thinking try_send now id payload agent name key no_auth srv).1

  abbrev pub send_run : Server Sender → List SendCall → Server Sender
  send_run srv [] = srv
  send_run srv (c ∷ cs) = send_run (send_step srv c) cs

  handle_send_message-IsSealed :
      (now : ℕ) (id : String) (payload : Option SendMessagePayload) (agent name key : String)
      (srv : Server Sender)
      → IsSealed srv.store
      → IsSealed (handle_send_message try_send now id payload agent name key no_auth srv).1.store
  unfolding handle_send_message
  handle_send_message-IsSealed now id none agent name key srv h = h
  handle_send_message-IsSealed now id (some p) agent name key srv h =
      let kept =
        accept_message-IsSealed now id p.room_id agent name p.content p.reply_to p.metadata key
          no_auth srv h in
      elim (Result-cases
        (accept_message now id p.room_id agent name p.content p.reply_to p.metadata key no_auth
          srv).0) [
            | inl (msg, e) ↦ rw (e, handle_send_message) kept
            | inr (why, e) ↦ rw (e, handle_send_message) kept
          ]

  handle_thinking-IsSealed :
      (now : ℕ) (id : String) (payload : Option ThinkingPayload) (agent name key : String)
      (srv : Server Sender)
      → IsSealed srv.store
      → IsSealed (handle_thinking try_send now id payload agent name key no_auth srv).1.store
  unfolding handle_thinking
  handle_thinking-IsSealed now id none agent name key srv h = h
  handle_thinking-IsSealed now id (some p) agent name key srv h =
      let meta = obj (field "type" (text "thinking") end) in
      let kept =
        accept_message-IsSealed now id p.room_id agent name p.content none meta key no_auth srv h in
      elim (Result-cases
        (accept_message now id p.room_id agent name p.content none meta key no_auth srv).0) [
          | inl (msg, e) ↦ rw (e, handle_thinking) kept
          | inr (why, e) ↦ rw (e, handle_thinking) kept
        ]

  send_step-IsSealed :
      (srv : Server Sender) (c : SendCall) → IsSealed srv.store → IsSealed (send_step srv c).store
  send_step-IsSealed srv (sends now id payload agent name key) h =
      handle_send_message-IsSealed now id payload agent name key srv h
  send_step-IsSealed srv (thinks now id payload agent name key) h =
      handle_thinking-IsSealed now id payload agent name key srv h

  -- Over any messages and thoughts of any agents, refused ones included: if every message that is
  -- stored in an encrypted room starts with `cow1:`, so do all after them.
  pub ciphertext_only :
      (srv : Server Sender) (cs : List SendCall)
      → IsSealed srv.store
      → IsSealed (send_run srv cs).store
  ciphertext_only srv [] h = h
  ciphertext_only srv (c ∷ cs) h = ciphertext_only (send_step srv c) cs (send_step-IsSealed srv c h)
