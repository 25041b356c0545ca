-- ===== src/Voting/Cleanup.antt =====
-- What is left of an agent that disconnected, and of a room that was destroyed.
use cowchat4win.Base.{
  String, ◌≡◌, refl, sym, ap, subst, Bool, false, not, Option, none, some, List, [], ◌∷◌, ◌∙◌,
  arith, ◌==◌, eq_iff, eq_refl, if◌then◌else◌, contains, Bool-cases, Option-cases, inl, inr, ◌⊎◌,
}
use cowchat4win.Base.Dict.{Dict, IsDict, lookup, lookup-remove, lookup-retain_values, keep_if}
use cowchat4win.Voting.{VoteManager, ActiveVote, Effect, close_active, close_and_broadcast_vote}
use cowchat4win.Voting.Election.{
  Chooser, finish_election, clear_leader, get_leader, is_leader, rooms_led_by, clear_each,
  clear_leader_if_agent, forget_room,
}
use cowchat4win.Voting.Calls.{close_active-none, close_active-some}

get_leader-clear_leader :
    (room asked : String) (m : VoteManager)
    → get_leader asked (clear_leader room m).1
      ≡ (if room == asked then none else get_leader asked m)
unfolding get_leader clear_leader
get_leader-clear_leader room asked m =
    ground (arith, eq_iff room asked, lookup-remove room asked m.room_leaders)

get_leader-clear_each :
    (rooms : List String) (asked : String) (m : VoteManager)
    → get_leader asked (clear_each rooms m).1
      ≡ (if contains asked rooms then none else get_leader asked m)
unfolding clear_each
get_leader-clear_each [] asked m = refl
get_leader-clear_each (r ∷ rooms) asked m = ground (
  arith,
  get_leader-clear_leader r asked m,
  get_leader-clear_each rooms asked (clear_leader r m).1,
)

rooms_led_by-none :
    (agent room : String) (d : Dict String)
    → lookup room d ≡ none
    → contains room (rooms_led_by agent d) ≡ false
unfolding rooms_led_by lookup
rooms_led_by-none agent room [] h = refl
rooms_led_by-none agent room ((k, leader) ∷ d) h = ground (arith, h, rooms_led_by-none agent room d)

abbrev leads : String → Option String → Bool
leads agent none = false
leads agent (some leader) = leader == agent

contains-rooms_led_by :
    (agent room : String) (d : Dict String)
    → IsDict d
    → contains room (rooms_led_by agent d) ≡ leads agent (lookup room d)
unfolding rooms_led_by lookup
contains-rooms_led_by agent room [] h = refl
contains-rooms_led_by agent room ((k, leader) ∷ d) (new, h) = ground (
  arith,
  new,
  eq_iff k room,
  rooms_led_by-none agent room d,
  contains-rooms_led_by agent room d h,
)

-- After an agent's cleanup, exactly the rooms that it led have no leader; the others keep theirs.
pub get_leader-clear_leader_if_agent :
    (agent room : String) (m : VoteManager)
    → IsDict m.room_leaders
    → let after = (clear_leader_if_agent agent m).1 in
      (is_leader room agent after ≡ false)
      × (get_leader room after ≡ (if is_leader room agent m then none else get_leader room m))
unfolding clear_leader_if_agent is_leader get_leader
get_leader-clear_leader_if_agent agent room m h =
    let cleared : lookup room (clear_leader_if_agent agent m).1.room_leaders ≡ (
        if contains room (rooms_led_by agent m.room_leaders)
        then none
        else lookup room m.room_leaders) =
      get_leader-clear_each (rooms_led_by agent m.room_leaders) room m in
    elim (Option-cases (lookup room m.room_leaders)) [
      | inl e ↦ ground (arith, e, cleared, contains-rooms_led_by agent room m.room_leaders h)
      | inr (l, e) ↦ ground (arith, e, cleared, contains-rooms_led_by agent room m.room_leaders h)
    ]

forget_room-elections :
    (room : String) (m : VoteManager) → lookup room (forget_room room m).active_elections ≡ none
unfolding forget_room
forget_room-elections room m =
    ground (arith, eq_refl room, lookup-remove room room m.active_elections)

forget_room-leaders :
    (room : String) (m : VoteManager) → lookup room (forget_room room m).room_leaders ≡ none
unfolding forget_room
forget_room-leaders room m = ground (arith, eq_refl room, lookup-remove room room m.room_leaders)

-- The votes that `forget_room` keeps.
abbrev elsewhere : String → ActiveVote → Bool
elsewhere room v = not (v.room_id == room)

forget_room-votes :
    (room id : String) (m : VoteManager)
    → IsDict m.active_votes
    → lookup id (forget_room room m).active_votes
      ≡ keep_if (elsewhere room) (lookup id m.active_votes)
unfolding forget_room
forget_room-votes room id m h = lookup-retain_values (elsewhere room) id m.active_votes h

kept :
    (room : String) (v : ActiveVote) (o : Option ActiveVote)
    → keep_if (elsewhere room) o ≡ some v
    → (v.room_id == room) ≡ false
kept room v none h = cc
kept room v (some w) h = elim (Bool-cases (w.room_id == room)) [
  | inl e ↦ ground (arith, e, h)
  | inr e ↦
      let same : some w ≡ some v = ground (arith, e, h) in
      let eq : w ≡ v = cc in subst (λ (u : ActiveVote). (u.room_id == room) ≡ false) eq e
]

-- After the coordination of a room is forgotten, a timer of an election there does nothing, no
-- leader is recorded for it, and a vote that a timer or a late ballot still closes is another room's.
pub forgotten_room_is_silent :
    (chooser : Chooser) (room vote_id : String) (before destroyed : Bool)
    (name_of : String → Option String) (m : VoteManager)
    → IsDict m.active_votes
    → let after = forget_room room m in
      ((finish_election chooser room before destroyed name_of after).0 ≡ [])
      × (get_leader room (finish_election chooser room before destroyed name_of after).1 ≡ none)
      × (((close_active vote_id after).0 ≡ [])
          ⊎ ((v : ActiveVote) × ((v.room_id == room) ≡ false)
              × ((close_active vote_id after).0 ≡ close_and_broadcast_vote v)))
unfolding finish_election get_leader
forgotten_room_is_silent chooser room vote_id before destroyed name_of m h =
    let after : VoteManager = forget_room room m in
    let no_election : lookup room after.active_elections ≡ none = forget_room-elections room m in
    let no_leader : lookup room after.room_leaders ≡ none = forget_room-leaders room m in
    let votes : lookup vote_id after.active_votes
        ≡ keep_if (elsewhere room) (lookup vote_id m.active_votes) =
      forget_room-votes room vote_id m h in
    (
      elim (Bool-cases before) [
        | inl b ↦ rw (b, finish_election) refl
        | inr b ↦ rw (b, no_election, finish_election) refl
      ],
      elim (Bool-cases before) [
        | inl b ↦
            rw (b, finish_election)
              (ground (arith, eq_refl room, no_leader, lookup-remove room room after.room_leaders))
        | inr b ↦ rw (b, no_election, finish_election) no_leader
      ],
      elim (Option-cases (lookup vote_id after.active_votes)) [
        | inl e ↦
            inl (ap (λ (r : List Effect × VoteManager). r.0) (close_active-none vote_id after e))
        | inr (v, e) ↦ inr (
          v,
          kept room v (lookup vote_id m.active_votes) (sym votes ∙ e),
          ap (λ (r : List Effect × VoteManager). r.0) (close_active-some vote_id after v e),
        )
      ],
    )
