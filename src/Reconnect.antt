-- ===== src/Reconnect.antt =====
-- crates/cowchat-server/src/reconnect.rs: what is kept of an agent that disconnected. The clock is
-- read once a call. A lease is the agent's id and a token, `commit` consumes it, and `drop_lease` is
-- what `Drop` does where it was not committed. A `HashSet` is a list without order.
pub mod Calls
pub mod Entries
pub mod Bounds
pub mod Forgotten
pub mod Late
pub mod Gone
pub mod Lease
pub mod Tests
use cowchat4win.Base.{
  ℕ, ◌-◌, ◌*◌, String, Bool, true, false, not, ◌&&◌, ◌||◌, Option, none, some, List, [], ◌∷◌, ◌++◌,
  ◌==◌, if◌then◌else◌, ltb, leb, length, contains, is_some, is_empty, retain, without,
}
use cowchat4win.Base.Dict.{Dict, lookup, insert, remove, retain_values, contains_key}
use cowchat4win.Protocol.{Frame, frame_room_id}
use cowchat4win.Tombstones.{nanos_per_sec, prune, bury}
use cowchat4win.Access.{can_access_room_parts}
use cowchat4win.Base.{Result, ok, err}

abbrev pub reconnect_window : ℕ
reconnect_window = 120 * nanos_per_sec

abbrev pub max_buffered_messages : ℕ
max_buffered_messages = 200

abbrev pub destroyed_room_ttl : ℕ
destroyed_room_ttl = 180 * nanos_per_sec

abbrev pub max_destroyed_rooms : ℕ
max_destroyed_rooms = 4096

pub record StashedAgent : Type 0 where
  pub agent_id : String
  pub name : String
  pub api_key : String
  pub rooms : List String
  pub missed_messages : List Frame
  pub disconnected_at : ℕ
  pub reclaim_token : Option String

pub record ReconnectManager : Type 0 where
  pub stashed : Dict StashedAgent
  pub destroyed_rooms : Dict ℕ

pub data ReclaimError : Type 0 where
  credential_mismatch : ReclaimError
  already_claimed : ReclaimError

pub record ReclaimLease : Type 0 where
  pub agent_id : String
  pub token : String

unfoldable pub prune_destroyed : ℕ → Dict ℕ → Dict ℕ
prune_destroyed now rooms = prune destroyed_room_ttl max_destroyed_rooms now rooms

unfoldable pub insert_destroyed : ℕ → String → Dict ℕ → Dict ℕ
insert_destroyed now room_id rooms = bury destroyed_room_ttl max_destroyed_rooms now room_id rooms

-- `room_is_destroyed`, on the cache under the lock.
unfoldable pub contains_destroyed : ℕ → String → Dict ℕ → Bool × Dict ℕ
unfolding prune_destroyed
contains_destroyed now room_id rooms =
    let rooms' = prune_destroyed now rooms in (contains_key room_id rooms', rooms')

-- `rooms.retain(|room_id| !self.room_is_destroyed(room_id))`
unfoldable pub retain_live : ℕ → List String → Dict ℕ → List String × Dict ℕ
unfolding contains_destroyed
retain_live now [] cache = ([], cache)
retain_live now (room_id ∷ rest) cache =
    let (gone, cache₁) = contains_destroyed now room_id cache in
    let (live, cache₂) = retain_live now rest cache₁ in
    ((if gone then live else room_id ∷ live), cache₂)

-- What the cleanup task does every thirty seconds.
unfoldable pub cleanup : ℕ → ReconnectManager → ReconnectManager
unfolding prune_destroyed
cleanup now m = record {
  stashed =
      retain_values (λ (s : StashedAgent). ltb (now - s.disconnected_at) reconnect_window)
        m.stashed;
  destroyed_rooms = prune_destroyed now m.destroyed_rooms;
}

-- The second pass reads the tombstones that became visible in between, at the time `later`.
unfoldable pub stash :
    ℕ → ℕ → String → String → String → List String → ReconnectManager → ReconnectManager
unfolding retain_live
stash now later agent_id name api_key rooms m =
    let (live, cache) = retain_live now rooms m.destroyed_rooms in
    let (still_live, cache') = retain_live later live cache in
    let entry : StashedAgent = record {
      agent_id = agent_id;
      name = name;
      api_key = api_key;
      rooms = still_live;
      missed_messages = [];
      disconnected_at = now;
      reclaim_token = none;
    } in
    record { stashed = insert agent_id entry m.stashed; destroyed_rooms = cache' }

-- `token` is the random UUID.
unfoldable pub begin_reclaim :
    ℕ
    → String
    → String
    → String
    → Bool
    → ReconnectManager
    → Result (Option ReclaimLease) ReclaimError × ReconnectManager
begin_reclaim now token agent_id api_key no_auth m = elim (lookup agent_id m.stashed) [
  | none ↦ (ok none, m)
  | some s ↦
      if leb reconnect_window (now - s.disconnected_at)
      then (ok none, record m { stashed = remove agent_id m.stashed })
      else if not no_auth && not (s.api_key == api_key)
      then (err credential_mismatch, m)
      else if is_some s.reclaim_token
      then (err already_claimed, m)
      else (
        ok (some (record { agent_id = agent_id; token = token })),
        record m { stashed = insert agent_id (record s { reclaim_token = some token }) m.stashed },
      )
]

-- `entry.reclaim_token.as_deref() == Some(token)`
unfoldable pub holds_token : String → StashedAgent → Bool
holds_token token s = elim s.reclaim_token [ none ↦ false | some t ↦ t == token ]

unfoldable pub snapshot : ReclaimLease → ReconnectManager → Option StashedAgent
unfolding holds_token
snapshot lease m = elim (lookup lease.agent_id m.stashed) [
  | none ↦ none
  | some s ↦ if holds_token lease.token s then some s else none
]

unfoldable pub commit : ReclaimLease → ReconnectManager → Option StashedAgent × ReconnectManager
unfolding holds_token
commit lease m = elim (lookup lease.agent_id m.stashed) [
  | none ↦ (none, m)
  | some s ↦
      if holds_token lease.token s
      then (
        some (record s { reclaim_token = none }),
        record m { stashed = remove lease.agent_id m.stashed },
      )
      else (none, m)
]

unfoldable pub drop_lease : ReclaimLease → ReconnectManager → ReconnectManager
unfolding holds_token
drop_lease lease m = elim (lookup lease.agent_id m.stashed) [
  | none ↦ m
  | some s ↦
      if holds_token lease.token s
      then record m {
        stashed = insert lease.agent_id (record s { reclaim_token = none }) m.stashed;
      }
      else m
]

unfoldable pub reclaim :
    ℕ
    → String
    → String
    → String
    → Bool
    → ReconnectManager
    → Result (Option StashedAgent) ReclaimError × ReconnectManager
unfolding begin_reclaim commit
reclaim now token agent_id api_key no_auth m =
    let (r, m') = begin_reclaim now token agent_id api_key no_auth m in
    elim r [
      | err e ↦ (err e, m')
      | ok none ↦ (ok none, m')
      | ok (some lease) ↦ let (s, m'') = commit lease m' in (ok s, m'')
    ]

-- Whether the frame is about no destroyed room.
unfoldable pub frame_is_live : ℕ → Frame → Dict ℕ → Bool × Dict ℕ
unfolding contains_destroyed
frame_is_live now frame cache = elim (frame_room_id frame) [
  | none ↦ (true, cache)
  | some room_id ↦ let (gone, cache') = contains_destroyed now room_id cache in (not gone, cache')
]

abbrev pub has_space : StashedAgent → Bool
has_space s = ltb (length s.missed_messages) max_buffered_messages

abbrev pub push_missed : Frame → StashedAgent → StashedAgent
push_missed frame s = record s { missed_messages = s.missed_messages ++ frame ∷ [] }

unfoldable pub buffer_message : ℕ → String → Frame → ReconnectManager → ReconnectManager
unfolding frame_is_live
buffer_message now agent_id frame m =
    let (live, cache) = frame_is_live now frame m.destroyed_rooms in
    let m' = record m { destroyed_rooms = cache } in
    if live
    then elim (lookup agent_id m.stashed) [
      | none ↦ m'
      | some s ↦
          if has_space s
          then record m' { stashed = insert agent_id (push_missed frame s) m.stashed }
          else m'
    ]
    else m'

unfoldable pub sees_room : String → Option String → List String → Bool → StashedAgent → Bool
sees_room visibility owner_key granted_keys no_auth s =
    can_access_room_parts visibility owner_key s.api_key no_auth
    || (not (s.api_key == "") && contains s.api_key granted_keys)

-- The iteration over the stashes: the keys of those that took the frame, the stashes, the cache.
unfoldable pub buffer_each :
    ℕ
    → (StashedAgent → Bool)
    → Frame
    → Dict StashedAgent
    → Dict ℕ
    → List String × Dict StashedAgent × Dict ℕ
unfolding frame_is_live
buffer_each now sees frame [] cache = ([], [], cache)
buffer_each now sees frame ((key, s) ∷ rest) cache =
    let (live, cache₁) = (if sees s then frame_is_live now frame cache else (false, cache)) in
    let (keys, stashes, cache₂) = buffer_each now sees frame rest cache₁ in
    if live && has_space s
    then (key ∷ keys, (key, push_missed frame s) ∷ stashes, cache₂)
    else (keys, (key, s) ∷ stashes, cache₂)

unfoldable pub buffer_visible_room_event :
    ℕ
    → String
    → Option String
    → List String
    → Bool
    → Frame
    → ReconnectManager
    → List String × ReconnectManager
unfolding buffer_each sees_room
buffer_visible_room_event now visibility owner_key granted_keys no_auth frame m =
    let (keys, stashes, cache) =
      buffer_each now (sees_room visibility owner_key granted_keys no_auth) frame m.stashed
        m.destroyed_rooms in
    (keys, record { stashed = stashes; destroyed_rooms = cache })

unfoldable pub is_stashed : String → ReconnectManager → Bool
is_stashed agent_id m = contains_key agent_id m.stashed

unfoldable pub stashed_in : String → Dict StashedAgent → List String
stashed_in room_id [] = []
stashed_in room_id ((key, s) ∷ rest) =
    let more = stashed_in room_id rest in if contains room_id s.rooms then key ∷ more else more

unfoldable pub stashed_members_of_room : String → ReconnectManager → List String
unfolding stashed_in
stashed_members_of_room room_id m = stashed_in room_id m.stashed

-- `frame_room_id(frame) != Some(room_id)`
unfoldable pub is_elsewhere : String → Frame → Bool
is_elsewhere room_id frame = elim (frame_room_id frame) [
  | none ↦ true
  | some r ↦ not (r == room_id)
]

unfoldable pub forget_stashed : String → StashedAgent → StashedAgent
unfolding is_elsewhere
forget_stashed room_id s = record s {
  rooms = without room_id s.rooms;
  missed_messages = retain (is_elsewhere room_id) s.missed_messages;
}

unfoldable pub forget_each : String → Dict StashedAgent → Dict StashedAgent
unfolding forget_stashed
forget_each room_id [] = []
forget_each room_id ((key, s) ∷ rest) = (key, forget_stashed room_id s) ∷ forget_each room_id rest

unfoldable pub forget_room : ℕ → String → ReconnectManager → ReconnectManager
unfolding insert_destroyed forget_each
forget_room now room_id m = record {
  stashed = forget_each room_id m.stashed;
  destroyed_rooms = insert_destroyed now room_id m.destroyed_rooms;
}
