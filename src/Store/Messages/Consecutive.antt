-- ===== src/Store/Messages/Consecutive.antt =====
-- The numbers that a room gives out, over any insertions and purges.
use cowchat4win.Base.{
  ℕ, suc, ◌+◌, ◌-◌, String, ◌≡◌, refl, sym, ap, ◌∙◌, subst, true, false, Option, List, [], ◌∷◌,
  ◌++◌, ◌==◌, arith, eq_iff, if◌then◌else◌, retain, length, Bool-cases, inl, inr,
}
use cowchat4win.Protocol.{Json}
use cowchat4win.Models.{ChatMessage}
use cowchat4win.Base.{Result, ok, err}
use cowchat4win.Store.{Store, StoreError, map_message_row, to_millis}
use cowchat4win.Store.Messages.{
  in_room, high_water, insert_message, purge_messages_by_tier, purged, delete_messages, room_tip,
}
use cowchat4win.Store.Messages.Sequence.{
  Rising, Numbered, Rising-append, Rising-delete, retain-append, Inserted, insert_message-cases,
}

pub data MessageCall : Type 0 where
  inserts : ℕ → String → String → String → String → String → Option String → Json → MessageCall
  purges : ℕ → String → ℕ → MessageCall

abbrev pub sent : Result ChatMessage StoreError × Store → List ChatMessage × Store
sent (err e, s) = ([], s)
sent (ok msg, s) = (msg ∷ [], s)

abbrev pub message_step : Store → MessageCall → List ChatMessage × Store
message_step s (inserts now id room agent name content reply meta) =
    sent (insert_message now id room agent name content reply meta s)
message_step s (purges now tier age) = ([], (purge_messages_by_tier now tier age s).1)

abbrev pub message_run : Store → List MessageCall → List ChatMessage × Store
message_run s [] = ([], s)
message_run s (c ∷ cs) =
    let (msgs, s') = message_step s c in let (more, s'') = message_run s' cs in (msgs ++ more, s'')

-- The numbers of a room's messages.
abbrev pub numbers_in : String → List ChatMessage → List ℕ
numbers_in k [] = []
numbers_in k (m ∷ ms) = if m.room_id == k then m.seq ∷ numbers_in k ms else numbers_in k ms

abbrev pub IsCounting : ℕ → List ℕ → Type 0
IsCounting next [] = Unit
IsCounting next (n ∷ ns) = (n ≡ next) × IsCounting (suc next) ns

-- One insertion, seen by a room: its next number and tip, or nothing.
record Seen (k : String) (s : Store) (r : List ChatMessage × Store) : Type 0 where
  counting : IsCounting (suc (high_water k s)) (numbers_in k r.0)
  tip : high_water k r.1 ≡ high_water k s + length (numbers_in k r.0)

Inserted-Seen :
    (k room : String) (msg : ChatMessage) (s s' : Store)
    → Inserted room msg s s'
    → Seen k s (msg ∷ [], s')
unfolding map_message_row
Inserted-Seen k room msg s s' i =
    let its_seq : msg.seq ≡ suc (high_water room s) =
      ap (λ (m : ChatMessage). m.seq) i.answer ∙ i.next in
    let its_room : msg.room_id ≡ room = ap (λ (m : ChatMessage). m.room_id) i.answer ∙ i.its_room in
    elim (Bool-cases (room == k)) [
      | inl e ↦
          let same : room ≡ k = (eq_iff room k).0 e in
          let here : (msg.room_id == k) ≡ true = ap (λ r. r == k) its_room ∙ e in
          let number : msg.seq ≡ suc (high_water k s) =
            its_seq ∙ ap (λ r. suc (high_water r s)) same in
          record {
            counting = rw here (number, tt);
            tip = rw here (ground (arith, i.tips k, e, i.next, number, its_seq));
          }
      | inr e ↦
          let there : (msg.room_id == k) ≡ false = ap (λ r. r == k) its_room ∙ e in
          record { counting = rw there tt; tip = rw there (ground (arith, i.tips k, e)) }
    ]

message_step-Seen : (k : String) (s : Store) (c : MessageCall) → Seen k s (message_step s c)
unfolding purge_messages_by_tier
message_step-Seen k s (inserts now id room agent name content reply meta) =
    elim (insert_message-cases now id room agent name content reply meta s) [
      | inl e ↦ subst (λ r. Seen k s (sent r)) (sym e) (record { counting = tt; tip = omega arith })
      | inr (msg, s', e, i) ↦
          subst (λ r. Seen k s (sent r)) (sym e) (Inserted-Seen k room msg s s' i)
    ]
message_step-Seen k s (purges now tier age) = record { counting = tt; tip = omega arith }

numbers_in-append :
    (k : String) (ms ns : List ChatMessage)
    → numbers_in k (ms ++ ns) ≡ numbers_in k ms ++ numbers_in k ns
numbers_in-append k [] ns = refl
numbers_in-append k (m ∷ ms) ns = ground (arith, numbers_in-append k ms ns)

IsCounting-append :
    (next : ℕ) (xs ys : List ℕ)
    → IsCounting next xs
    → IsCounting (next + length xs) ys
    → IsCounting next (xs ++ ys)
IsCounting-append next [] ys h g = subst (λ n. IsCounting n ys) (omega arith) g
IsCounting-append next (x ∷ xs) ys (e, h) g =
    (e, IsCounting-append (suc next) xs ys h (subst (λ n. IsCounting n ys) (omega arith) g))

-- Over any insertions and purges, in whatever rooms and failed ones included, the messages that a
-- room takes in get consecutive numbers, from the one after its tip on: a purge frees none.
pub message_run-IsCounting :
    (k : String) (s : Store) (cs : List MessageCall)
    → IsCounting (suc (room_tip k s)) (numbers_in k (message_run s cs).0)
unfolding room_tip
message_run-IsCounting k s [] = tt
message_run-IsCounting k s (c ∷ cs) =
    let seen = message_step-Seen k s c in
    let rest = message_run-IsCounting k (message_step s c).1 cs in
    subst (IsCounting (suc (high_water k s)))
      (sym (numbers_in-append k (message_step s c).0 (message_run (message_step s c).1 cs).0))
      (IsCounting-append (suc (high_water k s)) (numbers_in k (message_step s c).0)
        (numbers_in k (message_run (message_step s c).1 cs).0) seen.counting
        (subst (λ n. IsCounting n (numbers_in k (message_run (message_step s c).1 cs).0))
          (omega (arith, seen.tip)) rest))

Inserted-Numbered :
    (k room : String) (msg : ChatMessage) (s s' : Store)
    → Inserted room msg s s'
    → Numbered k s
    → Numbered k s'
Inserted-Numbered k room msg s s' i h =
    subst (λ ms. Rising 0 (high_water k s') (retain (in_room k) ms)) (sym i.appended)
      (subst (Rising 0 (high_water k s')) (sym (retain-append (in_room k) s.messages i.row))
        (elim (Bool-cases (room == k)) [
          | inl e ↦
              let same : room ≡ k = (eq_iff room k).0 e in
              let here : in_room k i.row ≡ true = ap (λ r. r == k) i.its_room ∙ e in
              let top : high_water k s' ≡ i.row.seq =
                i.tips k ∙ ap (λ b. if b then i.row.seq else high_water k s) e in
              rw (here, top)
                (Rising-append 0 (high_water k s) (retain (in_room k) s.messages) i.row h
                  (omega (arith, i.next, ap (λ r. high_water r s) same)))
          | inr e ↦
              let there : in_room k i.row ≡ false = ap (λ r. r == k) i.its_room ∙ e in
              let top : high_water k s' ≡ high_water k s =
                i.tips k ∙ ap (λ b. if b then i.row.seq else high_water k s) e in
              rw (there, top)
                (subst (Rising 0 (high_water k s))
                  (sym (append_nil (retain (in_room k) s.messages))) h)
        ]))
  where
    append_nil : {A : Type 0} (xs : List A) → xs ++ [] ≡ xs
    append_nil [] = refl
    append_nil (x ∷ xs) = ap (λ r. x ∷ r) (append_nil xs)

message_step-Numbered :
    (k : String) (s : Store) (c : MessageCall) → Numbered k s → Numbered k (message_step s c).1
unfolding purge_messages_by_tier delete_messages
message_step-Numbered k s (inserts now id room agent name content reply meta) h =
    elim (insert_message-cases now id room agent name content reply meta s) [
      | inl e ↦ subst (λ r. Numbered k (sent r).1) (sym e) h
      | inr (msg, s', e, i) ↦
          subst (λ r. Numbered k (sent r).1) (sym e) (Inserted-Numbered k room msg s s' i h)
    ]
message_step-Numbered k s (purges now tier age) h =
    Rising-delete k (purged tier (to_millis (now - age)) s) s.messages 0 (high_water k s) s.messages
      h

-- Insertions and purges keep the messages of each room in the order of their numbers, distinct and
-- none above the room's tip.
pub message_run-Numbered :
    (k : String) (s : Store) (cs : List MessageCall)
    → Numbered k s
    → Numbered k (message_run s cs).1
message_run-Numbered k s [] h = h
message_run-Numbered k s (c ∷ cs) h =
    message_run-Numbered k (message_step s c).1 cs (message_step-Numbered k s c h)
