-- ===== src/Broker/Tests.antt =====
-- Runs of the broker, and its theorems at concrete rooms.
use cowchat4win.Base.{
  Option, none, ◌++◌, ltb, if◌then◌else◌, String, ℕ, ◌<◌, ◌≡◌, refl, true, false, some, List, [],
  ◌∷◌, arith, length,
}
use cowchat4win.Base.Dict.{lookup, insert, remove}
use cowchat4win.Broker
use cowchat4win.Base.{err}
use cowchat4win.Broker.{
  Broker, AgentConnection, is_agent_in_room, destroyed, join_room, leave_room, advance_turn_from,
  get_room_members, turn_holder, next_speaker,
}
use cowchat4win.Broker.Seats.{seat}
use cowchat4win.Broker.Turns.{IsSeated, rounds, every_member_speaks}
use cowchat4win.Broker.History.{
  Call, joins, leaves, speaks, destroys, step, run, AllSeated, run-new-AllSeated,
}
use cowchat4win.Protocol.{Frame, FrameType, event, null}
use cowchat4win.Models.{ChatMessage}
use cowchat4win.Broker.Delivery.{send_mentions, mentions_stay_in_room}
use cowchat4win.Broker.Destroyed.{destroyed_stays_destroyed}

-- A broker whose queues carry nothing, with three members in one room; "b" has the turn.
abbrev three : Broker Unit
three = record {
  agents = [];
  room_members = ("lobby", "a" ∷ "b" ∷ "c" ∷ []) ∷ ("ops", "b" ∷ []) ∷ [];
  turn_holders = ("lobby", "b") ∷ ("ops", "b") ∷ [];
  tombstones = [];
}

wraps_around : turn_holder (rounds 2 "lobby" three) "lobby" ≡ some "a"
unfolding rounds turn_holder advance_turn_from next_speaker get_room_members lookup insert
wraps_around = refl

hands_over : turn_holder (leave_room 7 "b" "lobby" three).1 "lobby" ≡ some "a"
unfolding leave_room turn_holder lookup insert remove
hands_over = refl

abbrev script : List (ℕ × Call)
script =
    (1, joins "a" "lobby" true)
    ∷ (2, joins "b" "lobby" true)
    ∷ (3, speaks "a" "lobby")
    ∷ (4, leaves "b" "lobby")
    ∷ []

run-new-AllSeated_example : AllSeated (run (Broker.new {Sender = Unit {0}} [] []) script)
run-new-AllSeated_example = run-new-AllSeated [] script

three-IsSeated : IsSeated (seat three "lobby")
unfolding get_room_members turn_holder lookup
three-IsSeated = record { distinct = (refl, (refl, (refl, tt))); turn = refl }

every_member_speaks_example :
    (k : ℕ) × (k < length (get_room_members three "lobby"))
    × (turn_holder (rounds k "lobby" three) "lobby" ≡ some "a")
unfolding get_room_members turn_holder lookup
every_member_speaks_example = every_member_speaks "lobby" three "b" "a" three-IsSeated refl refl

destroyed_stays_destroyed_example :
    let after = run (step three (1, destroys "lobby" true 2)) ((3, joins "b" "lobby" true) ∷ []) in
    ((join_room 4 "a" "lobby" true after).0 ≡ err destroyed) × (get_room_members after "lobby" ≡ [])
destroyed_stays_destroyed_example =
    destroyed_stays_destroyed 1 2 "lobby" three ((3, joins "b" "lobby" true) ∷ []) 4 "a" true tt
      refl (omega arith) (omega arith) (omega arith)

-- Queues of one place.
abbrev try_push : List Frame → Frame → Option (List Frame)
try_push q f = if ltb (length q) 1 then some (q ++ f ∷ []) else none

abbrev connection : String → List Frame → AgentConnection (List Frame)
connection id queue = record {
  info = record {
    agent_id = id;
    name = id;
    capabilities = [];
    connected_at = none;
    last_active = none;
    status = none;
    status_detail = none;
    progress = none;
  };
  session_id = "s";
  sender = queue;
  disconnect = false;
  api_key = "";
}

abbrev ping : Frame
ping = event FrameType.pong null

abbrev connected : Broker (List Frame)
connected = record {
  agents =
      ("a", connection "a" []) ∷ ("b", connection "b" (ping ∷ [])) ∷ ("c", connection "c" []) ∷ [];
  room_members = ("lobby", "a" ∷ "b" ∷ []) ∷ [];
  turn_holders = [];
  tombstones = [];
}

abbrev note : ChatMessage
note = record {
  message_id = "m";
  room_id = "lobby";
  agent_id = "a";
  agent_name = "a";
  content = "psst";
  reply_to_message = none;
  metadata = null;
  timestamp = 1;
  seq = 1;
}

mentions_stay_in_room_example :
    lookup "c" (send_mentions try_push ("c" ∷ "a" ∷ []) note "lobby" connected).agents
    ≡ some (connection "c" [])
unfolding lookup is_agent_in_room
mentions_stay_in_room_example =
    mentions_stay_in_room try_push ("c" ∷ "a" ∷ []) note "lobby" "c" connected refl
