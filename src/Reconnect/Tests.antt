-- ===== src/Reconnect/Tests.antt =====
-- The theorems on reconnects at concrete agents and rooms.
use cowchat4win.Base.{
  ◌≤◌, String, ◌≡◌, ◌≢◌, refl, false, Option, none, some, List, [], ◌∷◌, arith, length, contains,
}
use cowchat4win.Base.Dict.{lookup, insert, remove, retain_values}
use cowchat4win.Base.{ok}
use cowchat4win.Protocol.{
  Frame, FrameType, event, frame_room_id, get, get_field, as_str, obj, field, end, text,
}
use cowchat4win.Tombstones.{prune, bury, evict}
use cowchat4win.Reconnect.{
  StashedAgent, ReconnectManager, stash, retain_live, contains_destroyed, prune_destroyed,
  insert_destroyed, begin_reclaim, commit, holds_token, buffer_message, frame_is_live, forget_room,
  forget_each, forget_stashed, is_elsewhere,
}
use cowchat4win.Reconnect.Calls.{stashes, claims, buffers, run}
use cowchat4win.Reconnect.Bounds.{missed_messages_bounded}
use cowchat4win.Reconnect.Lease.{lease_is_exclusive}
use cowchat4win.Reconnect.Gone.{reclaim_never_restores}
use cowchat4win.Reconnect.Forgotten.{AllElsewhere}

abbrev said : String → Frame
said room = event FrameType.message_received (obj (field "room_id" (text room) end))

abbrev stashed_ann : List String → List Frame → Option String → StashedAgent
stashed_ann rooms missed token = record {
  agent_id = "a";
  name = "Ann";
  api_key = "key";
  rooms = rooms;
  missed_messages = missed;
  disconnected_at = 3;
  reclaim_token = token;
}

abbrev away : ReconnectManager
away = record {
  stashed = ("a", stashed_ann ("lobby" ∷ "ops" ∷ []) (said "lobby" ∷ []) none) ∷ [];
  destroyed_rooms = [];
}

abbrev nobody : ReconnectManager
nobody = record { stashed = []; destroyed_rooms = [] }

missed_messages_bounded_example : length (said "ops" ∷ []) ≤ 200
unfolding stash retain_live buffer_message frame_is_live contains_destroyed prune_destroyed prune
    evict frame_room_id get get_field as_str lookup insert retain_values
missed_messages_bounded_example =
    missed_messages_bounded []
      ((3, stashes 3 "a" "Ann" "key" ("lobby" ∷ [])) ∷ (4, buffers "a" (said "ops")) ∷ []) "a"
      (stashed_ann ("lobby" ∷ []) (said "ops" ∷ []) none) refl

lease_is_exclusive_example :
    (begin_reclaim 9 "t2" "a" "key" false
      (run (begin_reclaim 5 "t1" "a" "key" false away).1 ((6, buffers "a" (said "ops")) ∷ []))).0
    ≢ ok (some (record { agent_id = "a"; token = "t2" }))
unfolding begin_reclaim lookup
lease_is_exclusive_example =
    lease_is_exclusive "a" "t1" 5 "key" false away ((6, buffers "a" (said "ops")) ∷ []) 9 "t2" "key"
      false (record { agent_id = "a"; token = "t2" }) (refl, tt) refl (tt, tt)

reclaim_never_restores_example :
    (contains "lobby" ("ops" ∷ []) ≡ false) × AllElsewhere "lobby" (said "ops" ∷ [])
unfolding begin_reclaim commit holds_token buffer_message frame_is_live contains_destroyed
    prune_destroyed insert_destroyed bury prune evict frame_room_id get get_field as_str forget_room
    forget_each forget_stashed is_elsewhere lookup insert remove retain_values
reclaim_never_restores_example =
    reclaim_never_restores 4 "lobby" away
      ((5, buffers "a" (said "lobby"))
        ∷ (6, buffers "a" (said "ops"))
        ∷ (7, claims "t" "a" "key" false)
        ∷ [])
      (record { agent_id = "a"; token = "t" }) (stashed_ann ("ops" ∷ []) (said "ops" ∷ []) none) tt
      refl
      (
        (omega arith, omega arith),
        (omega arith, omega arith),
        (
          (omega arith, omega arith),
          (omega arith, omega arith),
          ((omega arith, omega arith), (omega arith, omega arith), tt),
        ),
      )
      (omega arith) refl
