-- ===== src/Store/Messages/Sequence.antt =====
-- The sequence numbers of a room's messages.
use Prim.Native.Nat.{max}
use cowchat4win.Base.{
  ℕ, suc, ◌≤◌, ◌<◌, String, ◌≡◌, refl, sym, ap, ◌∙◌, subst, Bool, Option, some, List, [], ◌∷◌, ◌++◌,
  ◌⊎◌, arith, ◌==◌, eq_iff, if◌then◌else◌, leb, any, map, retain, ◌&&◌, Bool-cases, Option-cases,
  inl, inr,
}
use cowchat4win.Base.Dict.{insert, lookup-insert, contains_key}
use cowchat4win.Base.Tables.{delete_where}
use cowchat4win.Protocol.{Json}
use cowchat4win.Models.{ChatMessage}
use cowchat4win.Base.{ok, err}
use cowchat4win.Store.{Store, MessageRow, db, map_message_row, to_millis}
use cowchat4win.Store.Rooms.{has_room_id}
use cowchat4win.Store.Messages.{
  in_room, detached, high_water, reply_ok, has_message_id, insert_message_row, ensure_sequence,
  insert_message,
}

-- The numbers rise strictly, all of them above `lo` and none above `hi`.
abbrev pub Rising : ℕ → ℕ → List MessageRow → Type 0
Rising lo hi [] = lo ≤ hi
Rising lo hi (m ∷ ms) = (lo < m.seq) × Rising m.seq hi ms

-- The messages that a room has, in the order of the table, up to its high water.
abbrev pub Numbered : String → Store → Type 0
Numbered k s = Rising 0 (high_water k s) (retain (in_room k) s.messages)

pub Rising-lower :
    (lo lo' hi : ℕ) (ms : List MessageRow) → lo ≤ lo' → Rising lo' hi ms → Rising lo hi ms
Rising-lower lo lo' hi [] h r = omega arith
Rising-lower lo lo' hi (m ∷ ms) h (a, r) = (omega arith, r)

pub Rising-append :
    (lo hi : ℕ) (ms : List MessageRow) (row : MessageRow)
    → Rising lo hi ms
    → hi < row.seq
    → Rising lo row.seq (ms ++ row ∷ [])
Rising-append lo hi [] row h lt = (omega arith, omega arith)
Rising-append lo hi (m ∷ ms) row (a, h) lt = (a, Rising-append m.seq hi ms row h lt)

pub retain-append :
    (p : MessageRow → Bool) (ms : List MessageRow) (row : MessageRow)
    → retain p (ms ++ row ∷ []) ≡ retain p ms ++ (if p row then row ∷ [] else [])
retain-append p [] row = refl
retain-append p (m ∷ ms) row = ground (arith, retain-append p ms row)

pub seq-detached :
    (gone : MessageRow → Bool) (all : List MessageRow) (m : MessageRow)
    → ((detached gone all m).seq ≡ m.seq) × ((detached gone all m).room_id ≡ m.room_id)
seq-detached gone all m = elim (Option-cases m.reply_to_message) [
  | inl e ↦ rw e (refl, refl)
  | inr (t, e) ↦ elim (Bool-cases (any (λ r. has_message_id t r && gone r) all)) [
    | inl b ↦ rw (e, b) (refl, refl)
    | inr b ↦ rw (e, b) (refl, refl)
  ]
]

-- Deleting messages leaves the numbers of the others.
pub Rising-delete :
    (k : String) (gone : MessageRow → Bool) (all : List MessageRow) (lo hi : ℕ)
    (ms : List MessageRow)
    → Rising lo hi (retain (in_room k) ms)
    → Rising lo hi (retain (in_room k) (map (detached gone all) (delete_where gone ms)))
unfolding delete_where
Rising-delete k gone all lo hi [] h = h
Rising-delete k gone all lo hi (m ∷ ms) h = elim (Bool-cases (in_room k m)) [
  | inr other ↦
      let rest = Rising-delete k gone all lo hi ms (ground (arith, other, h)) in
      elim (Bool-cases (gone m)) [
        | inl g ↦ rw g rest
        | inr g ↦ rw g (rw ((seq-detached gone all m).1, other) rest)
      ]
  | inl here ↦
      let both : (lo < m.seq) × Rising m.seq hi (retain (in_room k) ms) =
        subst (λ b. Rising lo hi (if b then m ∷ retain (in_room k) ms else retain (in_room k) ms))
          here h in
      let rest = Rising-delete k gone all m.seq hi ms both.1 in
      elim (Bool-cases (gone m)) [
        | inl g ↦ rw g (Rising-lower lo m.seq hi _ (omega (arith, both.0)) rest)
        | inr g ↦
            rw g
              (rw ((seq-detached gone all m).1, here, (seq-detached gone all m).0) (both.0, rest))
      ]
]

-- What an insertion that succeeds does: one row at the end, with the next number of its room.
pub record Inserted (room_id : String) (msg : ChatMessage) (s s' : Store) : Type 0 where
  pub row : MessageRow
  pub answer : msg ≡ map_message_row row
  pub its_room : row.room_id ≡ room_id
  pub next : row.seq ≡ suc (high_water room_id s)
  pub appended : s'.messages ≡ s.messages ++ row ∷ []
  pub tips : (k : String) → high_water k s' ≡ (if room_id == k then row.seq else high_water k s)

high_water-ensure_sequence :
    (room_id k : String) (s s₁ : Store)
    → ensure_sequence room_id s ≡ some s₁
    → (high_water k s₁ ≡ high_water k s) × (s₁.messages ≡ s.messages)
unfolding ensure_sequence
high_water-ensure_sequence room_id k s s₁ e = elim (Bool-cases (contains_key room_id s.sequences)) [
  | inl c ↦
      let same : some s ≡ some s₁ = ground (arith, c, e) in
      let eq : s ≡ s₁ = cc in (ap (high_water k) (sym eq), ap (λ (t : Store). t.messages) (sym eq))
  | inr c ↦ elim (Bool-cases (any (has_room_id room_id) s.rooms)) [
    | inr r ↦ absurd (ground (arith, c, r, e))
    | inl r ↦
        let t : Store = record s { sequences = insert room_id 0 s.sequences } in
        let same : some t ≡ some s₁ = ground (arith, c, r, e) in
        let eq : t ≡ s₁ = cc in
        (
          ap (high_water k) (sym eq)
              ∙ ground (arith, c, eq_iff room_id k, lookup-insert room_id k 0 s.sequences),
          ap (λ (t : Store). t.messages) (sym eq),
        )
  ]
]

pub insert_message_row-lem :
    (row : MessageRow) (s s' : Store)
    → insert_message_row row s ≡ some s'
    → s' ≡ record s {
      messages = s.messages ++ row ∷ [];
      sequences = insert row.room_id (max (high_water row.room_id s) row.seq) s.sequences;
    }
unfolding insert_message_row
insert_message_row-lem row s s' e = elim (Bool-cases (leb row.seq (high_water row.room_id s))) [
  | inl low ↦ absurd (ground (arith, low, e))
  | inr low ↦ elim (Bool-cases (any (has_message_id row.message_id) s.messages)) [
    | inl dup ↦ absurd (ground (arith, low, dup, e))
    | inr dup ↦
        elim (Bool-cases (any (has_room_id row.room_id) s.rooms && reply_ok row s.messages)) [
          | inr bad ↦ absurd (ground (arith, low, dup, bad, e))
          | inl good ↦
              let t : Store = record s {
                messages = s.messages ++ row ∷ [];
                sequences = insert row.room_id (max (high_water row.room_id s) row.seq) s.sequences;
              } in
              let same : some t ≡ some s' = ground (arith, low, dup, good, e) in cc
        ]
  ]
]

-- The two ways in which an insertion ends.
pub insert_message-cases :
    (now : ℕ) (id room_id agent name content : String) (reply : Option String) (meta : Json)
    (s : Store)
    → (insert_message now id room_id agent name content reply meta s ≡ (err db, s))
      ⊎ ((msg : ChatMessage) × (s' : Store) × (insert_message now id room_id agent name content
              reply meta s
            ≡ (ok msg, s'))
          × Inserted room_id msg s s')
unfolding insert_message
insert_message-cases now id room_id agent name content reply meta s =
    elim (Option-cases (ensure_sequence room_id s)) [
      | inl e ↦ inl (rw (e, insert_message) refl)
      | inr (s₁, e) ↦
          let row : MessageRow = record {
            message_id = id;
            room_id = room_id;
            agent_id = agent;
            agent_name = name;
            content = content;
            reply_to_message = reply;
            metadata = meta;
            created_at = to_millis now;
            seq = suc (high_water room_id s₁);
          } in
          elim (Option-cases (insert_message_row row s₁)) [
            | inl f ↦ inl (rw (e, f, insert_message) refl)
            | inr (s₂, f) ↦
                let shape = insert_message_row-lem row s₁ s₂ f in
                inr (
                  map_message_row row,
                  s₂,
                  rw (e, f, insert_message) refl,
                  record {
                    row = row;
                    answer = refl;
                    its_room = refl;
                    next = ap suc (high_water-ensure_sequence room_id room_id s s₁ e).0;
                    appended =
                        ap (λ (t : Store). t.messages) shape
                        ∙ ap (λ ms. ms ++ row ∷ [])
                            (high_water-ensure_sequence room_id room_id s s₁ e).1;
                    tips = λ k.
                        ap (high_water k) shape
                        ∙ ground (
                          arith,
                          eq_iff room_id k,
                          (high_water-ensure_sequence room_id k s s₁ e).0,
                          lookup-insert room_id k (max (high_water room_id s₁) row.seq)
                              s₁.sequences,
                        );
                  },
                )
          ]
    ]
