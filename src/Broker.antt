-- ===== src/Broker.antt =====
-- crates/cowchat-server/src/broker.rs: which agents are in which room, whose turn it is, and which
-- rooms are gone. `DashMap`s are dictionaries; the clock is the argument `now`, in nanoseconds.
-- The mutexes are not state: each function that holds `room_lifecycle` throughout is one step.
-- An outbound queue is tokio's, and enters by `Sender` and `try_send`.
pub mod Seats
pub mod Turns
pub mod History
pub mod Destroyed
pub mod Departure
pub mod Delivery
pub mod Tests
use cowchat4win.Base.{Result, ok, err}
use cowchat4win.Base.{
  ℕ, ◌+◌, ◌*◌, ◌%◌, String, Bool, true, false, not, Option, none, some, List, [], ◌∷◌, ◌++◌, ◌==◌,
  ◌||◌, if◌then◌else◌, length, get_elem?, head?, is_empty, retain, position_from, contains,
  unwrap_or,
}
use cowchat4win.Base.Dict.{Dict, lookup, insert, remove, contains_key}
use cowchat4win.Models.{AgentInfo}
use cowchat4win.Tombstones.{nanos_per_sec, prune, bury}

pub record JoinOutcome : Type 0 where
  pub new_holder : Option String

pub data JoinRoomError : Type 0 where
  destroyed : JoinRoomError

pub record LeaveOutcome : Type 0 where
  pub now_empty : Bool
  pub new_holder : Option String
  pub holder_changed : Bool

abbrev pub room_tombstone_ttl : ℕ
room_tombstone_ttl = 5 * 60 * nanos_per_sec

abbrev pub max_room_tombstones : ℕ
max_room_tombstones = 4096

-- `AgentConnection` of connection.rs; `disconnect` is whether its `Notify` has been notified. The
-- handles of its tasks are not modelled.
pub record AgentConnection (Sender : Type 0) : Type 0 where
  pub info : AgentInfo
  pub session_id : String
  pub sender : Sender
  pub disconnect : Bool
  pub api_key : String

pub record Broker (Sender : Type 0) : Type 0 where
  pub agents : Dict (AgentConnection Sender)
  pub room_members : Dict (List String)
  pub turn_holders : Dict String
  pub tombstones : Dict ℕ

-- `entry(room_id).or_default()`, and the push when the agent is not yet there.
unfoldable pub admit : String → List String → List String
admit agent_id members = if contains agent_id members then members else members ++ agent_id ∷ []

-- `rooms_for_agent`, and the same filter at the head of `leave_all_rooms`.
unfoldable pub rooms_in : String → Dict (List String) → List String
rooms_in agent_id [] = []
rooms_in agent_id ((room_id, members) ∷ m) =
    let rest = rooms_in agent_id m in if contains agent_id members then room_id ∷ rest else rest

-- The member after the sender in join order, round and round; the first where it is not found.
unfoldable pub next_speaker : String → List String → Option String
next_speaker sender_id members = elim (position_from 0 (λ m. m == sender_id) members) [
  | some i ↦ get_elem? members ((i + 1) % length members)
  | none ↦ get_elem? members 0
]

-- `get(room_id).and_then(|m| m.first().cloned())`
abbrev first_member : Option (List String) → Option String
first_member none = none
first_member (some members) = head? members

module _ {Sender : Type 0} where
  abbrev pub new : Dict (AgentConnection Sender) → Dict (List String) → Broker Sender
  new agents room_members = record {
    agents = agents;
    room_members = room_members;
    turn_holders = [];
    tombstones = [];
  }

  unfoldable pub prune_tombstones : ℕ → Broker Sender → Broker Sender
  prune_tombstones now b = record b {
    tombstones = prune room_tombstone_ttl max_room_tombstones now b.tombstones;
  }

  unfoldable pub tombstone : ℕ → String → Broker Sender → Broker Sender
  tombstone now room_id b = record b {
    tombstones = bury room_tombstone_ttl max_room_tombstones now room_id b.tombstones;
  }

  unfoldable pub get_room_members : Broker Sender → String → List String
  get_room_members b room_id = unwrap_or (lookup room_id b.room_members) []

  unfoldable pub turn_holder : Broker Sender → String → Option String
  turn_holder b room_id = lookup room_id b.turn_holders

  unfoldable pub is_agent_in_room : Broker Sender → String → String → Bool
  is_agent_in_room b agent_id room_id = elim (lookup room_id b.room_members) [
    | none ↦ false
    | some members ↦ contains agent_id members
  ]

  -- `room_exists` is what the caller's closure answers under the lifecycle lock.
  unfoldable pub join_room :
      ℕ → String → String → Bool → Broker Sender → Result JoinOutcome JoinRoomError × Broker Sender
  unfolding prune_tombstones get_room_members admit
  join_room now agent_id room_id room_exists b =
      let b = prune_tombstones now b in
      if contains_key room_id b.tombstones || not room_exists
      then (err destroyed, b)
      else let members = admit agent_id (get_room_members b room_id) in
        let b = record b { room_members = insert room_id members b.room_members } in
        if contains_key room_id b.turn_holders then (ok (record { new_holder = none }), b) else (
          ok (record { new_holder = some agent_id }),
          record b { turn_holders = insert room_id agent_id b.turn_holders },
        )

  -- The members that are left, written back only where the room has an entry.
  unfoldable pub drop_member : String → String → Broker Sender → Bool × Broker Sender
  drop_member agent_id room_id b = elim (lookup room_id b.room_members) [
    | none ↦ (true, b)
    | some members ↦
        let rest = retain (λ m. not (m == agent_id)) members in
        (is_empty rest, record b { room_members = insert room_id rest b.room_members })
  ]

  -- The first member that is left takes the turn over.
  unfoldable pub pass_to_first : String → Broker Sender → Option String × Broker Sender
  pass_to_first room_id b = elim (first_member (lookup room_id b.room_members)) [
    | some next_id ↦
        (some next_id, record b { turn_holders = insert room_id next_id b.turn_holders })
    | none ↦ (none, record b { turn_holders = remove room_id b.turn_holders })
  ]

  unfoldable pub is_holder : Broker Sender → String → String → Bool
  is_holder b agent_id room_id = elim (lookup room_id b.turn_holders) [
    | none ↦ false
    | some h ↦ h == agent_id
  ]

  unfoldable pub leave_room : ℕ → String → String → Broker Sender → LeaveOutcome × Broker Sender
  unfolding prune_tombstones drop_member pass_to_first is_holder
  leave_room now agent_id room_id b =
      let b = prune_tombstones now b in
      let was_holder = is_holder b agent_id room_id in
      let (now_empty, b) = drop_member agent_id room_id b in
      if was_holder
      then (if now_empty
          then (
            record { now_empty = now_empty; new_holder = none; holder_changed = true },
            record b { turn_holders = remove room_id b.turn_holders },
          )
          else let (next, b) = pass_to_first room_id b in
            (record { now_empty = now_empty; new_holder = next; holder_changed = true }, b))
      else (record { now_empty = now_empty; new_holder = none; holder_changed = false }, b)

  unfoldable pub rooms_for_agent : Broker Sender → String → List String
  rooms_for_agent b agent_id = rooms_in agent_id b.room_members

  -- The rooms in turn; the clock does not move while they are left.
  unfoldable pub leave_each :
      ℕ → String → List String → Broker Sender → List (String × LeaveOutcome) × Broker Sender
  leave_each now agent_id [] b = ([], b)
  leave_each now agent_id (room_id ∷ rest) b =
      let (outcome, b) = leave_room now agent_id room_id b in
      let (outcomes, b) = leave_each now agent_id rest b in ((room_id, outcome) ∷ outcomes, b)

  unfoldable pub leave_all_rooms :
      ℕ → String → Broker Sender → List (String × LeaveOutcome) × Broker Sender
  unfolding leave_each
  leave_all_rooms now agent_id b = leave_each now agent_id (rooms_in agent_id b.room_members) b

  unfoldable pub advance_turn_from : String → String → Broker Sender → Option String × Broker Sender
  advance_turn_from room_id sender_id b =
      let members = get_room_members b room_id in
      if is_empty members
      then (none, record b { turn_holders = remove room_id b.turn_holders })
      else elim (next_speaker sender_id members) [
        | none ↦ (none, b)
        | some next ↦ (some next, record b { turn_holders = insert room_id next b.turn_holders })
      ]

  -- The `Result` is the callback's answer, and `later` the time after it. An error leaves all but
  -- the pruned tombstones as it was.
  unfoldable pub destroy_room_with {ℓ κ} :
      {T : Type ℓ} {E : Type κ}
      → ℕ
      → ℕ
      → String
      → Result T E
      → Broker Sender
      → Result (T × List String) E × Broker Sender
  unfolding prune_tombstones tombstone get_room_members
  destroy_room_with now later room_id (err e) b = (err e, prune_tombstones now b)
  destroy_room_with now later room_id (ok deleted) b =
      let b = tombstone later room_id (prune_tombstones now b) in
      (
        ok (deleted, get_room_members b room_id),
        record b {
          room_members = remove room_id b.room_members;
          turn_holders = remove room_id b.turn_holders;
        },
      )

  unfoldable pub is_room_destroyed : ℕ → String → Broker Sender → Bool × Broker Sender
  unfolding prune_tombstones
  is_room_destroyed now room_id b =
      let b = prune_tombstones now b in (contains_key room_id b.tombstones, b)
