-- ===== src/Broker/Seats.antt =====
-- The broker seen one room at a time: its members in join order, and who holds the turn. Each
-- operation of broker.rs acts on the seat of its own room as a function of that seat alone, and
-- leaves the seats of all other rooms.
use cowchat4win.Base.{
  ℕ, suc, ◌+◌, ◌%◌, String, ◌≡◌, refl, Bool, true, false, not, ◌&&◌, Option, none, some, List, [],
  ◌∷◌, ◌||◌, arith, ◌==◌, eq_iff, eq_refl, if◌then◌else◌, head?, is_empty, is_some, without, length,
  position_from, get_elem?_total, unwrap_or, Option-cases, List-cases, inl, inr,
}
use cowchat4win.Base.Dict.{lookup, contains_key, lookup-insert, lookup-remove}
use cowchat4win.Base.{Result, ok, err}
use cowchat4win.Broker.{
  Broker, get_room_members, turn_holder, prune_tombstones, admit, next_speaker, join_room,
  leave_room, drop_member, advance_turn_from, destroy_room_with,
}

pub record Seat : Type 0 where
  pub members : List String
  pub holder : Option String

module _ {Sender : Type 0} where
  abbrev pub seat : Broker Sender → String → Seat
  seat b room_id = record { members = get_room_members b room_id; holder = turn_holder b room_id }

abbrev pub empty_seat : Seat
empty_seat = record { members = []; holder = none }

-- A newcomer takes the turn only where nobody has it.
abbrev pub join_seat : String → Seat → Seat
join_seat agent_id s = record {
  members = admit agent_id s.members;
  holder = if is_some s.holder then s.holder else some agent_id;
}

abbrev pub is_held_by : String → Option String → Bool
is_held_by agent_id none = false
is_held_by agent_id (some h) = h == agent_id

-- The turn of one who leaves goes to the first member that is left, if there is one.
abbrev pub leave_seat : String → Seat → Seat
leave_seat agent_id s = record {
  members = without agent_id s.members;
  holder = if is_held_by agent_id s.holder then head? (without agent_id s.members) else s.holder;
}

-- The turn of an empty room is dropped.
abbrev pub advance_seat : String → Seat → Seat
advance_seat sender_id s = record {
  members = s.members;
  holder = if is_empty s.members then none else next_speaker sender_id s.members;
}

-- Where there is a member, someone speaks next.
pub next_speaker_total :
    (a m : String) (rest : List String) → (n : String) × (next_speaker a (m ∷ rest) ≡ some n)
unfolding next_speaker
next_speaker_total a m rest = elim (Option-cases (position_from 0 (λ x. x == a) (m ∷ rest))) [
  | inl e ↦ rw (e, next_speaker) (m, refl)
  | inr (i, e) ↦
      rw (e, next_speaker) (get_elem?_total (m ∷ rest) ((i + 1) % suc (length rest)) (omega arith))
]

abbrev pub is_ok {ℓ κ} : {A : Type ℓ} {E : Type κ} → Result A E → Bool
is_ok (ok a) = true
is_ok (err e) = false

module _ {Sender : Type 0} (now : ℕ) (agent_id room_id : String) (b : Broker Sender)
    (j : String) where
  -- A join that is refused leaves every seat; one that succeeds is `join_seat` on its own room.
  pub seat-join_room :
      (exists : Bool)
      → seat (join_room now agent_id room_id exists b).1 j ≡ (
          if contains_key room_id (prune_tombstones now b).tombstones || not exists
          then seat b j
          else if room_id == j
          then join_seat agent_id (seat b j)
          else seat b j)
  unfolding join_room turn_holder
  seat-join_room exists = ground (
    arith,
    eq_iff room_id j,
    lookup-insert room_id j (admit agent_id (unwrap_or (lookup room_id b.room_members) []))
        b.room_members,
    lookup-insert room_id j agent_id b.turn_holders,
  )

  pub seat-leave_room :
      seat (leave_room now agent_id room_id b).1 j
      ≡ (if room_id == j then leave_seat agent_id (seat b j) else seat b j)
  unfolding leave_room turn_holder get_room_members
  seat-leave_room = elim (Option-cases (lookup room_id b.room_members)) [
    | inl e ↦
        rw (e, drop_member, leave_room)
          (ground (arith, e, eq_iff room_id j, lookup-remove room_id j b.turn_holders))
    | inr (ms, e) ↦ elim (List-cases (without agent_id ms)) [
      | inl l ↦ ground (
        arith,
        e,
        l,
        eq_iff room_id j,
        lookup-insert room_id j [] b.room_members,
        lookup-remove room_id j b.turn_holders,
      )
      | inr (m, rest, l) ↦ ground (
        arith,
        e,
        l,
        eq_iff room_id j,
        eq_refl room_id,
        lookup-insert room_id j (m ∷ rest) b.room_members,
        lookup-insert room_id room_id (m ∷ rest) b.room_members,
        lookup-insert room_id j m b.turn_holders,
      )
    ]
  ]

  pub seat-advance_turn_from :
      seat (advance_turn_from room_id agent_id b).1 j
      ≡ (if room_id == j then advance_seat agent_id (seat b j) else seat b j)
  unfolding advance_turn_from turn_holder get_room_members
  seat-advance_turn_from = elim (List-cases (get_room_members b room_id)) [
    | inl e ↦ ground (arith, e, eq_iff room_id j, lookup-remove room_id j b.turn_holders)
    | inr (m, rest, e) ↦
        let (n, next) = next_speaker_total agent_id m rest in
        ground (arith, e, next, eq_iff room_id j, lookup-insert room_id j n b.turn_holders)
  ]

module _ {ℓ κ} {Sender : Type 0} {T : Type ℓ} {E : Type κ} (now later : ℕ) (room_id : String)
    (b : Broker Sender) (j : String) where
  -- A destruction that the store refuses leaves every seat; one that it grants empties its room's.
  pub seat-destroy_room_with :
      (r : Result T E)
      → seat (destroy_room_with now later room_id r b).1 j
        ≡ (if is_ok r && (room_id == j) then empty_seat else seat b j)
  unfolding destroy_room_with turn_holder
  seat-destroy_room_with (err e) = refl
  seat-destroy_room_with (ok d) = ground (
    arith,
    eq_iff room_id j,
    lookup-remove room_id j b.room_members,
    lookup-remove room_id j b.turn_holders,
  )
