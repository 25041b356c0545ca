-- ===== src/Broker/Turns.antt =====
-- The turn token: who has it, and that it goes round.
use mathlib.Core.Path.{subst}
use native.Mathlib.Nat.{mod-add-mod, add-mod_right, mod-eq_of_lt}
use cowchat4win.Base.{
  ℕ, zero, suc, ◌+◌, ◌-◌, ◌%◌, ◌<◌, String, ◌≡◌, refl, true, Option, none, some, List, [], ◌∷◌,
  arith, ◌==◌, eq_iff, eq_refl, ◌∙◌, if◌then◌else◌, length, head?, get_elem?, contains, is_some,
  is_empty, ap, sym, leb, contains-append, Distinct, without, contains-without, without-Distinct,
  append-Distinct, contains_of_get_elem?, position_of_get_elem?, get_elem?_of_contains,
  get_elem?_total, get_elem?-lt, position_from, Bool-cases, Option-cases, List-cases, inl, inr,
}
use cowchat4win.Broker.{
  Broker, turn_holder, get_room_members, admit, next_speaker, advance_turn_from,
}
use cowchat4win.Broker.Seats.{
  Seat, seat, join_seat, leave_seat, advance_seat, is_held_by, next_speaker_total,
  seat-advance_turn_from,
}

-- Nobody holds the turn of an empty room; elsewhere a member does.
abbrev pub HasTurn : List String → Option String → Type 0
HasTurn members none = members ≡ []
HasTurn members (some h) = contains h members ≡ true

-- Every member joined once, and the turn is with one of them.
pub record IsSeated (s : Seat) : Type 0 where
  pub distinct : Distinct s.members
  pub turn : HasTurn s.members s.holder

admit-Distinct : (a : String) (ms : List String) → Distinct ms → Distinct (admit a ms)
unfolding admit
admit-Distinct a ms d = elim (Bool-cases (contains a ms)) [
  | inl e ↦ rw e d
  | inr e ↦ rw e (append-Distinct a ms d e)
]

pub contains-admit :
    (a b : String) (ms : List String)
    → contains b (admit a ms) ≡ (if a == b then true else contains b ms)
unfolding admit
contains-admit a b ms = ground (arith, eq_iff a b, contains-append b ms (a ∷ []))

next_speaker-contains :
    (a n : String) (ms : List String) → next_speaker a ms ≡ some n → contains n ms ≡ true
unfolding next_speaker
next_speaker-contains a n ms h = elim (Option-cases (position_from 0 (λ m. m == a) ms)) [
  | inl e ↦ contains_of_get_elem? n ms 0 (ground arith)
  | inr (i, e) ↦ contains_of_get_elem? n ms ((i + 1) % length ms) (ground arith)
]

join_turn :
    (a : String) (ms : List String) (o : Option String)
    → HasTurn ms o
    → HasTurn (admit a ms) (if is_some o then o else some a)
join_turn a ms none t = ground (arith, contains-admit a a ms, eq_iff a a)
join_turn a ms (some h) t = ground (arith, contains-admit a h ms)

leave_turn :
    (a : String) (ms : List String) (o : Option String)
    → HasTurn ms o
    → HasTurn (without a ms) (if is_held_by a o then head? (without a ms) else o)
leave_turn a ms none t = rw t refl
leave_turn a ms (some h) t = elim (Bool-cases (h == a)) [
  | inl e ↦ elim (List-cases (without a ms)) [
    | inl l ↦ rw (e, l) refl
    | inr (m, rest, l) ↦ rw (e, l) (ground (arith, eq_iff m m))
  ]
  | inr e ↦ rw e (ground (arith, contains-without a h ms, eq_iff h a, eq_iff a h))
]

advance_turn :
    (a : String) (ms : List String) → HasTurn ms (if is_empty ms then none else next_speaker a ms)
advance_turn a [] = refl
advance_turn a (m ∷ rest) =
    let (n, next) = next_speaker_total a m rest in
    rw next (next_speaker-contains a n (m ∷ rest) next)

module _ (a : String) (s : Seat) (v : IsSeated s) where
  pub join_seat-IsSeated : IsSeated (join_seat a s)
  join_seat-IsSeated = record {
    distinct = admit-Distinct a s.members v.distinct;
    turn = join_turn a s.members s.holder v.turn;
  }

  pub leave_seat-IsSeated : IsSeated (leave_seat a s)
  leave_seat-IsSeated = record {
    distinct = without-Distinct a s.members v.distinct;
    turn = leave_turn a s.members s.holder v.turn;
  }

  pub advance_seat-IsSeated : IsSeated (advance_seat a s)
  advance_seat-IsSeated = record { distinct = v.distinct; turn = advance_turn a s.members }

-- Who speaks next, where the speaker stands at `i`.
next_speaker-get_elem? :
    (a : String) (ms : List String) (i : ℕ)
    → Distinct ms
    → get_elem? ms i ≡ some a
    → next_speaker a ms ≡ get_elem? ms ((i + 1) % length ms)
unfolding next_speaker
next_speaker-get_elem? a ms i d h =
    let p : position_from 0 (λ m. m == a) ms ≡ some i =
      rw (position_of_get_elem? 0 a ms i d h) (ap some (omega arith)) in
    rw (p, next_speaker) refl

-- `k` messages in a row, each sent by whoever holds the turn.
unfoldable pub rounds : {Sender : Type 0} → ℕ → String → Broker Sender → Broker Sender
rounds zero room_id b = b
rounds (suc k) room_id b = elim (turn_holder b room_id) [
  | none ↦ b
  | some h ↦ rounds k room_id (advance_turn_from room_id h b).1
]

mod_step : (i k n : ℕ) → 0 < n → ((i + 1) % n + k) % n ≡ (i + suc k) % n
mod_step i k n h = rw (mod-add-mod (i + 1) n k) (ap (λ (t : ℕ). t % n) (omega arith))

mod_reach : (i j n : ℕ) → i < n → j < n → (k : ℕ) × (k < n) × ((i + k) % n ≡ j)
mod_reach i j n hi hj = elim (Bool-cases (leb i j)) [
  | inl e ↦ (j - i, ground arith, ap (λ (t : ℕ). t % n) (ground arith) ∙ mod-eq_of_lt hj)
  | inr e ↦ (
    j + n - i,
    ground arith,
    ap (λ (t : ℕ). t % n) (ground arith) ∙ add-mod_right j n ∙ mod-eq_of_lt hj,
  )
]

module _ {Sender : Type 0} (room_id : String) (a : String) (b : Broker Sender) where
  advance_self : seat (advance_turn_from room_id a b).1 room_id ≡ advance_seat a (seat b room_id)
  advance_self = seat-advance_turn_from 0 a room_id b room_id ∙ rw (eq_refl room_id) refl

  members-advance :
      get_room_members (advance_turn_from room_id a b).1 room_id ≡ get_room_members b room_id
  members-advance = ap (λ (s : Seat). s.members) advance_self

  holder-advance :
      (i : ℕ)
      → Distinct (get_room_members b room_id)
      → get_elem? (get_room_members b room_id) i ≡ some a
      → turn_holder (advance_turn_from room_id a b).1 room_id
        ≡ get_elem? (get_room_members b room_id) ((i + 1) % length (get_room_members b room_id))
  holder-advance i d g =
      ap (λ (s : Seat). s.holder) advance_self ∙ elim (List-cases (get_room_members b room_id)) [
        | inl e ↦ absurd (ground (arith, e))
        | inr (m, rest, e) ↦
            rw (← next_speaker-get_elem? a (get_room_members b room_id) i d g) (ground (arith, e))
      ]

module _ {Sender : Type 0} (room_id : String) where
  -- The turn goes round in join order: `k` messages later it is `k` places on.
  pub turn_holder-rounds :
      (k i : ℕ) (b : Broker Sender) (h : String)
      → Distinct (get_room_members b room_id)
      → get_elem? (get_room_members b room_id) i ≡ some h
      → turn_holder b room_id ≡ some h
      → turn_holder (rounds k room_id b) room_id
        ≡ get_elem? (get_room_members b room_id) ((i + k) % length (get_room_members b room_id))
  unfolding rounds
  turn_holder-rounds zero i b h d g t =
      let lt = get_elem?-lt (get_room_members b room_id) i h g in
      let e : (i + 0) % length (get_room_members b room_id) ≡ i =
        ap (λ (k : ℕ). k % length (get_room_members b room_id)) (omega arith) ∙ mod-eq_of_lt lt in
      rw e (t ∙ sym g)
  turn_holder-rounds (suc k) i b h d g t =
      let ms = get_room_members b room_id in
      let b' = (advance_turn_from room_id h b).1 in
      let same : get_room_members b' room_id ≡ ms = members-advance room_id h b in
      let (h', g') =
        get_elem?_total ms ((i + 1) % length ms) (omega (arith, get_elem?-lt ms i h g)) in
      let t' : turn_holder b' room_id ≡ some h' = holder-advance room_id h b i d g ∙ g' in
      rw (t, rounds)
        (turn_holder-rounds k ((i + 1) % length ms) b' h' (rw same d) (rw same g') t'
          ∙ rw (same, mod_step i k (length ms) (omega (arith, get_elem?-lt ms i h g))) refl)

  -- From any member's turn, every member has its turn within as many messages as there are members.
  pub every_member_speaks :
      (b : Broker Sender) (h m : String)
      → IsSeated (seat b room_id)
      → turn_holder b room_id ≡ some h
      → contains m (get_room_members b room_id) ≡ true
      → (k : ℕ) × (k < length (get_room_members b room_id))
        × (turn_holder (rounds k room_id b) room_id ≡ some m)
  every_member_speaks b h m v t c =
      let ms = get_room_members b room_id in
      let held : contains h ms ≡ true = subst (HasTurn ms) t v.turn in
      let (i, _, gi) = get_elem?_of_contains h ms held in
      let (j, ltj, gj) = get_elem?_of_contains m ms c in
      let (k, ltk, e) = mod_reach i j (length ms) (get_elem?-lt ms i h gi) ltj in
      (k, ltk, turn_holder-rounds k i b h v.distinct gi t ∙ rw e gj)
