-- ===== src/Reconnect/Calls.antt =====
-- Any order of the calls on the reconnect manager, each at its time.
use cowchat4win.Base.{ℕ, String, Bool, Option, List, [], ◌∷◌}
use cowchat4win.Protocol.{Frame}
use cowchat4win.Reconnect.{
  ReconnectManager, ReclaimLease, cleanup, stash, begin_reclaim, commit, drop_lease, buffer_message,
  buffer_visible_room_event, forget_room,
}

pub data Call : Type 0 where
  stashes : ℕ → String → String → String → List String → Call
  claims : String → String → String → Bool → Call
  commits : ReclaimLease → Call
  drops : ReclaimLease → Call
  buffers : String → Frame → Call
  room_event : String → Option String → List String → Bool → Frame → Call
  forgets : String → Call
  cleans : Call

abbrev pub step : ReconnectManager → ℕ → Call → ReconnectManager
step m now (stashes later id name key rooms) = stash now later id name key rooms m
step m now (claims token id key no_auth) = (begin_reclaim now token id key no_auth m).1
step m now (commits lease) = (commit lease m).1
step m now (drops lease) = drop_lease lease m
step m now (buffers id frame) = buffer_message now id frame m
step m now (room_event visibility owner granted no_auth frame) =
    (buffer_visible_room_event now visibility owner granted no_auth frame m).1
step m now (forgets room) = forget_room now room m
step m now cleans = cleanup now m

abbrev pub run : ReconnectManager → List (ℕ × Call) → ReconnectManager
run m [] = m
run m ((now, c) ∷ cs) = run (step m now c) cs
