-- ===== src/Reconnect/Bounds.antt =====
-- How many messages a stash holds.
use cowchat4win.Base.{
  ℕ, ◌≤◌, String, ◌≡◌, true, some, List, [], ◌∷◌, arith, length, length-append, length-retain-le,
}
use cowchat4win.Base.Dict.{lookup}
use cowchat4win.Base.DictAll.{lookup-All, insert-All}
use cowchat4win.Protocol.{Frame}
use cowchat4win.Reconnect.{
  StashedAgent, ReconnectManager, max_buffered_messages, has_space, push_missed, stash,
  forget_stashed, is_elsewhere,
}
use cowchat4win.Reconnect.Calls.{
  Call, stashes, claims, commits, drops, buffers, room_event, forgets, cleans, step, run,
}
use cowchat4win.Reconnect.Entries.{
  IsKept, AllStashed, buffer_message-All, room_event-All, forget_room-All, cleanup-All, commit-All,
  begin_reclaim-All, drop_lease-All,
}

abbrev Small : String → StashedAgent → Type 0
Small k s = length s.missed_messages ≤ max_buffered_messages

push-Small :
    (s : StashedAgent) (f : Frame)
    → has_space s ≡ true
    → length (push_missed f s).missed_messages ≤ max_buffered_messages
push-Small s f space = ground (arith, length-append s.missed_messages (f ∷ []), space)

forget-Small :
    (s : StashedAgent) (r : String)
    → length s.missed_messages ≤ max_buffered_messages
    → length (forget_stashed r s).missed_messages ≤ max_buffered_messages
unfolding forget_stashed
forget-Small s r h = omega (arith, length-retain-le (is_elsewhere r) s.missed_messages, h)

Small-IsKept : IsKept Small
Small-IsKept = record {
  push = λ k s f p space. push-Small s f space;
  forget = λ k s r p. forget-Small s r p;
}

step-Small :
    (m : ReconnectManager) (now : ℕ) (c : Call)
    → AllStashed Small m
    → AllStashed Small (step m now c)
unfolding stash
step-Small m now (stashes later id name key rooms) h =
    insert-All Small id _ m.stashed (omega arith) h
step-Small m now (claims token id key no_auth) h =
    begin_reclaim-All Small now token id key no_auth m (λ s p free. p) h
step-Small m now (commits lease) h = commit-All Small lease m h
step-Small m now (drops lease) h = drop_lease-All Small lease m (λ s p held. p) h
step-Small m now (buffers id f) h = buffer_message-All Small Small-IsKept now id f m h
step-Small m now (room_event visibility owner granted no_auth f) h =
    room_event-All Small Small-IsKept now visibility owner granted no_auth f m h
step-Small m now (forgets r) h = forget_room-All Small Small-IsKept now r m h
step-Small m now cleans h = cleanup-All Small now m h

run-Small :
    (m : ReconnectManager) (cs : List (ℕ × Call)) → AllStashed Small m → AllStashed Small (run m cs)
run-Small m [] h = h
run-Small m ((now, c) ∷ cs) h = run-Small (step m now c) cs (step-Small m now c h)

-- Whatever calls were made, from no stash, a stash holds no more than 200 messages.
pub missed_messages_bounded :
    (destroyed_rooms : List (String × ℕ)) (cs : List (ℕ × Call)) (id : String) (s : StashedAgent)
    → lookup id (run (record { stashed = []; destroyed_rooms = destroyed_rooms }) cs).stashed
      ≡ some s
    → length s.missed_messages ≤ 200
missed_messages_bounded destroyed_rooms cs id s e =
    let start : ReconnectManager = record { stashed = []; destroyed_rooms = destroyed_rooms } in
    lookup-All Small id s (run start cs).stashed (run-Small start cs tt) e
