-- ===== src/Broker/History.antt =====
-- Histories of the broker: the calls that its handlers make, one after another.
use cowchat4win.Base.{
  ℕ, String, refl, Bool, true, false, not, ◌&&◌, ◌||◌, List, [], ◌∷◌, ◌==◌, if◌then◌else◌,
}
use cowchat4win.Base.Dict.{Dict, lookup, contains_key}
use cowchat4win.Base.{Result, ok, err}
use cowchat4win.Broker.{
  Broker, AgentConnection, new, prune_tombstones, join_room, leave_room, advance_turn_from,
  destroy_room_with, is_room_destroyed, get_room_members, turn_holder,
}
use cowchat4win.Broker.Seats.{
  Seat, seat, empty_seat, is_ok, seat-join_room, seat-leave_room, seat-advance_turn_from,
  seat-destroy_room_with,
}
use cowchat4win.Broker.Turns.{
  IsSeated, join_seat-IsSeated, leave_seat-IsSeated, advance_seat-IsSeated,
}

-- `joins a r e`: agent `a` joins room `r`, of which the store says `e`. `destroys r g later`: the
-- store grants (`g`) or refuses the deletion of `r`.
pub data Call : Type 0 where
  joins : String → String → Bool → Call
  leaves speaks : String → String → Call
  destroys : String → Bool → ℕ → Call
  asks : String → Call

-- The store's answer to a deletion.
abbrev pub answer : Bool → Result (Unit {0}) (Unit {0})
answer true = ok tt
answer false = err tt

if-IsSeated : (t : Bool) (s s' : Seat) → IsSeated s → IsSeated s' → IsSeated (if t then s else s')
if-IsSeated true s s' v v' = v
if-IsSeated false s s' v v' = v'

empty_seat-IsSeated : IsSeated empty_seat
empty_seat-IsSeated = record { distinct = tt; turn = refl }

module _ {Sender : Type 0} where
  unfoldable pub step : Broker Sender → ℕ × Call → Broker Sender
  step b (now, joins a r e) = (join_room now a r e b).1
  step b (now, leaves a r) = (leave_room now a r b).1
  step b (now, speaks a r) = (advance_turn_from r a b).1
  step b (now, destroys r granted later) = (destroy_room_with now later r (answer granted) b).1
  step b (now, asks r) = (is_room_destroyed now r b).1

  unfoldable pub run : Broker Sender → List (ℕ × Call) → Broker Sender
  run b [] = b
  run b (c ∷ cs) = run (step b c) cs

  -- Every room is in order.
  abbrev pub AllSeated : Broker Sender → Type 0
  AllSeated b = (j : String) → IsSeated (seat b j)

  -- Any call keeps every room in order: members stand once, and a member holds the turn exactly
  -- where there is one.
  pub step-AllSeated : (b : Broker Sender) (c : ℕ × Call) → AllSeated b → AllSeated (step b c)
  unfolding step is_room_destroyed get_room_members turn_holder
  step-AllSeated b (now, joins a r e) v j = rw (seat-join_room now a r b j e) (
      if-IsSeated (contains_key r (prune_tombstones now b).tombstones || not e) _ _ (v j)
        (if-IsSeated (r == j) _ _ (join_seat-IsSeated a _ (v j)) (v j)))
  step-AllSeated b (now, leaves a r) v j =
      rw (seat-leave_room now a r b j)
        (if-IsSeated (r == j) _ _ (leave_seat-IsSeated a _ (v j)) (v j))
  step-AllSeated b (now, speaks a r) v j =
      rw (seat-advance_turn_from now a r b j)
        (if-IsSeated (r == j) _ _ (advance_seat-IsSeated a _ (v j)) (v j))
  step-AllSeated b (now, destroys r granted later) v j =
      rw (seat-destroy_room_with now later r b j (answer granted))
        (if-IsSeated (is_ok (answer granted) && (r == j)) _ _ empty_seat-IsSeated (v j))
  step-AllSeated b (now, asks r) v j = v j

  run-AllSeated : (b : Broker Sender) (cs : List (ℕ × Call)) → AllSeated b → AllSeated (run b cs)
  unfolding run
  run-AllSeated b [] v = v
  run-AllSeated b (c ∷ cs) v = run-AllSeated (step b c) cs (step-AllSeated b c v)

  new-AllSeated : (agents : Dict (AgentConnection Sender)) → AllSeated (new agents [])
  unfolding get_room_members turn_holder lookup
  new-AllSeated agents j = record { distinct = tt; turn = refl }

  -- After any history of a server that starts with no members, each room's members stand in it
  -- once, and its turn is with one of them, or with nobody if it is empty.
  pub run-new-AllSeated :
      (agents : Dict (AgentConnection Sender)) (cs : List (ℕ × Call))
      → AllSeated (run (new agents []) cs)
  run-new-AllSeated agents cs = run-AllSeated (new agents []) cs (new-AllSeated agents)
