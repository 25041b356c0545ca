-- ===== src/Voting/Election.antt =====
-- The elections and leaders of crates/cowchat-server/src/voting.rs.
use cowchat4win.Base.{
  String, ◌≡◌, Bool, true, false, not, Option, none, some, List, [], ◌∷◌, ◌++◌, ◌==◌, if◌then◌else◌,
  retain, contains, unwrap_or,
}
use cowchat4win.Base.Dict.{Dict, lookup, insert, remove, retain_values, contains_key}
use cowchat4win.Protocol.{FrameType, ErrorCode, event, obj, field, end, text}
use cowchat4win.Base.{Result, ok, err}
use cowchat4win.Voting.{VoteManager, ActiveVote, ActiveElection, Effect, broadcast}

unfoldable pub start_election :
    String → List String → String → VoteManager → Result (Unit {0}) ErrorCode × VoteManager
start_election room_id candidates started_by m =
    if contains_key room_id m.active_elections
    then (err ErrorCode.election_in_progress, m)
    else let election : ActiveElection = record {
      room_id = room_id;
      candidates = candidates;
      declined = [];
      started_by = started_by;
    } in
      (ok tt, record m { active_elections = insert room_id election m.active_elections })

abbrev pub cleared : String → String → Effect
cleared room_id reason = broadcast room_id (
    event FrameType.leader_cleared
      (obj (field "room_id" (text room_id) (field "reason" (text reason) end))))

abbrev pub elected : String → String → String → Effect
elected room_id leader_id leader_name = broadcast room_id (
    event FrameType.leader_elected (
      obj (
        field "room_id" (text room_id)
          (field "leader_id" (text leader_id) (field "leader_name" (text leader_name) end)))))

-- The candidates that have not declined.
unfoldable pub remaining : ActiveElection → List String
remaining e = retain (λ c. not (contains c e.declined)) e.candidates

-- `SliceRandom::choose` on a slice that is not empty, as a parameter: any of its elements.
pub record Chooser : Type 0 where
  pub choose : String → List String → String
  pub choose-contains : (c : String) (cs : List String) → contains (choose c cs) (c ∷ cs) ≡ true

module _ (chooser : Chooser) where
  -- The winner is made leader, unless the room was destroyed in the meantime.
  unfoldable pub elect :
      String
      → Bool
      → (String → Option String)
      → List String
      → VoteManager
      → List Effect × VoteManager
  elect room_id destroyed name_of [] m = (cleared room_id "all candidates declined" ∷ [], m)
  elect room_id destroyed name_of (c ∷ cs) m =
      let winner_id = chooser.choose c cs in
      if destroyed then ([], record m { room_leaders = remove room_id m.room_leaders }) else (
        elected room_id winner_id (unwrap_or (name_of winner_id) winner_id) ∷ [],
        record m { room_leaders = insert room_id winner_id m.room_leaders },
      )

  -- What the timer runs two seconds after the start. `before` and `after` are the broker's two
  -- answers whether the room is destroyed, and `name_of` looks a connected agent up.
  unfoldable pub finish_election :
      String → Bool → Bool → (String → Option String) → VoteManager → List Effect × VoteManager
  unfolding elect remaining
  finish_election room_id before after name_of m =
      if before
      then (
        [],
        record m {
          active_elections = remove room_id m.active_elections;
          room_leaders = remove room_id m.room_leaders;
        },
      )
      else elim (lookup room_id m.active_elections) [
        | none ↦ ([], m)
        | some election ↦
            elect room_id after name_of (remaining election)
              (record m { active_elections = remove room_id m.active_elections })
      ]

-- `declined.insert`, into a set.
unfoldable pub set_insert : String → List String → List String
set_insert a xs = if contains a xs then xs else a ∷ xs

unfoldable pub decline_election :
    String → String → VoteManager → Result (Unit {0}) ErrorCode × VoteManager
unfolding set_insert
decline_election room_id agent_id m = elim (lookup room_id m.active_elections) [
  | none ↦ (err ErrorCode.no_election_active, m)
  | some e ↦
      let e' = record e { declined = set_insert agent_id e.declined } in
      (ok tt, record m { active_elections = insert room_id e' m.active_elections })
]

unfoldable pub clear_leader : String → VoteManager → List Effect × VoteManager
clear_leader room_id m =
    if contains_key room_id m.room_leaders
    then (
      cleared room_id "leader left" ∷ [],
      record m { room_leaders = remove room_id m.room_leaders },
    )
    else ([], m)

unfoldable pub get_leader : String → VoteManager → Option String
get_leader room_id m = lookup room_id m.room_leaders

unfoldable pub is_leader : String → String → VoteManager → Bool
is_leader room_id agent_id m = elim (lookup room_id m.room_leaders) [
  | none ↦ false
  | some leader ↦ leader == agent_id
]

unfoldable pub rooms_led_by : String → Dict String → List String
rooms_led_by agent_id [] = []
rooms_led_by agent_id ((room_id, leader) ∷ rest) =
    let more = rooms_led_by agent_id rest in if leader == agent_id then room_id ∷ more else more

unfoldable pub clear_each : List String → VoteManager → List Effect × VoteManager
unfolding clear_leader
clear_each [] m = ([], m)
clear_each (room_id ∷ rest) m =
    let (effects, m') = clear_leader room_id m in
    let (more, m'') = clear_each rest m' in (effects ++ more, m'')

unfoldable pub clear_leader_if_agent : String → VoteManager → List Effect × VoteManager
unfolding rooms_led_by
clear_leader_if_agent agent_id m = clear_each (rooms_led_by agent_id m.room_leaders) m

unfoldable pub forget_room : String → VoteManager → VoteManager
forget_room room_id m = record {
  active_votes = retain_values (λ (v : ActiveVote). not (v.room_id == room_id)) m.active_votes;
  active_elections = remove room_id m.active_elections;
  room_leaders = remove room_id m.room_leaders;
}
