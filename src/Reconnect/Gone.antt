-- ===== src/Reconnect/Gone.antt =====
-- No reconnect brings a forgotten room back.
use native.Mathlib.Nat.{add-zero, add_assoc}
use native.Mathlib.Numerals.{add-one}
use cowchat4win.Base.{
  ℕ, suc, ◌+◌, ◌-◌, ◌≤◌, ◌<◌, String, ◌≡◌, Bool, false, Option, some, List, [], ◌∷◌, arith,
  contains,
}
use cowchat4win.Base.Dict.{IsDict}
use cowchat4win.Base.DictAll.{insert-All}
use cowchat4win.Protocol.{Frame}
use cowchat4win.Tombstones.Laws.{count_since}
use cowchat4win.Tombstones.Buried.{Buried, bury-Buried, bury-Buried_self}
use cowchat4win.Reconnect.{
  StashedAgent, ReconnectManager, ReclaimLease, destroyed_room_ttl, max_destroyed_rooms,
  insert_destroyed, retain_live, stash, commit, buffer_visible_room_event, sees_room, forget_room,
}
use cowchat4win.Reconnect.Calls.{
  Call, stashes, claims, commits, drops, buffers, room_event, forgets, cleans, step, run,
}
use cowchat4win.Reconnect.Forgotten.{
  AllElsewhere, IsWithout, IsForgotten, retain_live-Buried, retain_live-gone, cleanup-IsForgotten,
  buffer_message-IsForgotten, forget_each-All, forget_each-keeps,
}
use cowchat4win.Reconnect.Late.{
  buffer_each-Forgotten, begin_reclaim-IsForgotten, commit-IsForgotten, drop_lease-IsForgotten,
  commit-IsWithout,
}

-- A reading of the clock at `t` or later, within the time to live.
abbrev pub Timely : ℕ → ℕ → Type 0
Timely t now = (t ≤ now) × (now - t < destroyed_room_ttl)

-- When a call reads the clock last.
abbrev pub last_reading : ℕ → Call → ℕ
last_reading now (stashes later id name key rooms) = later
last_reading now c = now

abbrev pub AllTimely : ℕ → List (ℕ × Call) → Type 0
AllTimely t [] = Unit
AllTimely t ((now, c) ∷ cs) = Timely t now × Timely t (last_reading now c) × AllTimely t cs

-- How many rooms are forgotten.
abbrev pub burial : Call → ℕ
burial (forgets room) = 1
burial c = 0

abbrev pub burials : List (ℕ × Call) → ℕ
burials [] = 0
burials ((now, c) ∷ cs) = burial c + burials cs

module _ (t n : ℕ) (k : String) (m : ReconnectManager) (h : IsForgotten t n k m) where
  stash-IsForgotten :
      (now later : ℕ) (id name key : String) (rooms : List String)
      → n ≤ max_destroyed_rooms
      → Timely t now
      → Timely t later
      → IsForgotten t n k (stash now later id name key rooms m)
  unfolding stash
  stash-IsForgotten now later id name key rooms room (_, live) (_, live') =
      let first : Buried t n k (retain_live now rooms m.destroyed_rooms).1 =
        retain_live-Buried t n k now room live rooms m.destroyed_rooms h.buried in
      let kept : List String = (retain_live now rooms m.destroyed_rooms).0 in
      record {
        buried =
            retain_live-Buried t n k later room live' kept
              (retain_live now rooms m.destroyed_rooms).1 first;
        stashes_without =
            insert-All (λ _. IsWithout k) id _ m.stashed
              (record {
                no_room =
                    retain_live-gone t n k later room live' kept
                      (retain_live now rooms m.destroyed_rooms).1 first;
                no_message = tt;
              })
              h.stashes_without;
      }

  room_event-IsForgotten :
      (now : ℕ) (visibility : String) (owner : Option String) (granted : List String)
      (no_auth : Bool) (f : Frame)
      → n ≤ max_destroyed_rooms
      → Timely t now
      → IsForgotten t n k (buffer_visible_room_event now visibility owner granted no_auth f m).1
  unfolding buffer_visible_room_event
  room_event-IsForgotten now visibility owner granted no_auth f room (_, live) =
      let each =
        buffer_each-Forgotten t n k now room live (sees_room visibility owner granted no_auth) f
          m.stashed m.destroyed_rooms h.stashes_without h.buried in
      record { buried = each.buried; stashes_without = each.stashes_without }

  forget_room-IsForgotten :
      (now : ℕ) (r : String)
      → n < max_destroyed_rooms
      → Timely t now
      → IsForgotten t (suc n) k (forget_room now r m)
  unfolding forget_room insert_destroyed
  forget_room-IsForgotten now r room (after, live) = record {
    buried =
        bury-Buried destroyed_room_ttl max_destroyed_rooms t n now k r m.destroyed_rooms h.buried
          room after live;
    stashes_without = forget_each-keeps k r m.stashed h.stashes_without;
  }

step-IsForgotten :
    (t n : ℕ) (k : String) (m : ReconnectManager) (now : ℕ) (c : Call)
    → IsForgotten t n k m
    → Timely t now
    → Timely t (last_reading now c)
    → n + burial c ≤ max_destroyed_rooms
    → IsForgotten t (n + burial c) k (step m now c)
step-IsForgotten t n k m now (stashes later id name key rooms) h a b room =
    rw add-zero (stash-IsForgotten t n k m h now later id name key rooms (omega arith) a b)
step-IsForgotten t n k m now (claims token id key no_auth) h a b room =
    rw add-zero (begin_reclaim-IsForgotten t n k m h now token id key no_auth)
step-IsForgotten t n k m now (commits lease) h a b room =
    rw add-zero (commit-IsForgotten t n k m h lease)
step-IsForgotten t n k m now (drops lease) h a b room =
    rw add-zero (drop_lease-IsForgotten t n k m h lease)
step-IsForgotten t n k m now (buffers id f) h a b room =
    rw add-zero (buffer_message-IsForgotten t n k now (omega arith) a.1 id f m h)
step-IsForgotten t n k m now (room_event visibility owner granted no_auth f) h a b room =
    rw add-zero
      (room_event-IsForgotten t n k m h now visibility owner granted no_auth f (omega arith) a)
step-IsForgotten t n k m now (forgets r) h a b room =
    rw add-one (forget_room-IsForgotten t n k m h now r (omega arith) a)
step-IsForgotten t n k m now cleans h a b room =
    rw add-zero (cleanup-IsForgotten t n k now (omega arith) a.1 m h)

run-IsForgotten :
    (t n : ℕ) (k : String) (m : ReconnectManager) (cs : List (ℕ × Call))
    → IsForgotten t n k m
    → AllTimely t cs
    → n + burials cs ≤ max_destroyed_rooms
    → IsForgotten t (n + burials cs) k (run m cs)
run-IsForgotten t n k m [] h timely room = rw add-zero h
run-IsForgotten t n k m ((now, c) ∷ cs) h (a, b, timely) room =
    rw (← add_assoc n (burial c) (burials cs)) (
      run-IsForgotten t (n + burial c) k (step m now c) cs
        (step-IsForgotten t n k m now c h a b (omega arith)) timely (omega arith))

forget_room-IsForgotten_self :
    (t : ℕ) (k : String) (m : ReconnectManager)
    → IsDict m.destroyed_rooms
    → count_since t m.destroyed_rooms ≡ 0
    → IsForgotten t 1 k (forget_room t k m)
unfolding forget_room insert_destroyed
forget_room-IsForgotten_self t k m d none_later = record {
  buried =
      bury-Buried_self destroyed_room_ttl max_destroyed_rooms t k m.destroyed_rooms d none_later
        (omega arith) (omega arith);
  stashes_without = forget_each-All k m.stashed;
}

-- After a room was forgotten at the time `t`, and whatever calls follow within the tombstone's time
-- to live, fewer than 4096 of them forgetting rooms: a lease that is committed hands out neither
-- the room nor a message about it. No older tombstone is as young.
pub reclaim_never_restores :
    (t : ℕ) (room_id : String) (m : ReconnectManager) (cs : List (ℕ × Call)) (lease : ReclaimLease)
    (s : StashedAgent)
    → IsDict m.destroyed_rooms
    → count_since t m.destroyed_rooms ≡ 0
    → AllTimely t cs
    → burials cs < max_destroyed_rooms
    → (commit lease (run (forget_room t room_id m) cs)).0 ≡ some s
    → (contains room_id s.rooms ≡ false) × AllElsewhere room_id s.missed_messages
reclaim_never_restores t room_id m cs lease s d none_later timely few e =
    let w =
      commit-IsWithout t (1 + burials cs) room_id (run (forget_room t room_id m) cs)
        (run-IsForgotten t 1 room_id (forget_room t room_id m) cs
          (forget_room-IsForgotten_self t room_id m d none_later) timely (omega arith))
        lease s e in
    (w.no_room, w.no_message)
