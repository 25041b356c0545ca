-- ===== src/Store/Votes.antt =====
-- Votes, ballots and tasks of crates/cowchat-server/src/store.rs, and what VoteManager::new of
-- crates/cowchat-server/src/voting.rs reads of them. Timers are left to tokio.
pub mod Final
pub mod Restored
use Prim.Native.Nat.{Ordering}
use Prim.Native.String.{compare}
use cowchat4win.Base.{
  ℕ, String, Bool, true, false, not, ◌&&◌, ◌||◌, Option, none, some, List, [], ◌∷◌, ◌++◌, ◌==◌,
  if◌then◌else◌, any, map, retain, contains, length, leb, eqb, Result, ok, err,
}
use cowchat4win.Base.Dict.{Dict, insert}
use cowchat4win.Base.Tables.{find_row, update_where, count_where, order_by, take}
use cowchat4win.Models.{BallotEntry, TaskInfo}
use cowchat4win.Store.{
  Store, VoteMeta, BallotRow, StoreError, db, vote_not_found, vote_closed, already_voted, to_millis,
}
use cowchat4win.Store.Rooms.{has_room_id}
use cowchat4win.Voting.{ActiveVote, VoteManager}

abbrev pub has_vote_id : String → VoteMeta → Bool
has_vote_id vote_id v = v.vote_id == vote_id

abbrev pub is_ballot_of : String → BallotRow → Bool
is_ballot_of vote_id b = b.vote_id == vote_id

abbrev pub is_ballot_by : String → String → BallotRow → Bool
is_ballot_by vote_id agent_id b = b.vote_id == vote_id && b.agent_id == agent_id

abbrev pub option_millis : Option ℕ → Option ℕ
option_millis none = none
option_millis (some t) = some (to_millis t)

-- The inserts into `vote_eligible_agents`, where an agent that stands twice is an error.
unfoldable pub all_distinct : List String → Bool
all_distinct [] = true
all_distinct (a ∷ rest) = let others = all_distinct rest in not (contains a rest) && others

unfoldable pub eligible_rows : String → List String → List (String × String)
eligible_rows vote_id [] = []
eligible_rows vote_id (a ∷ rest) = (vote_id, a) ∷ eligible_rows vote_id rest

abbrev pub is_eligible_row : String → String × String → Bool
is_eligible_row vote_id (v, a) = v == vote_id

unfoldable pub create_vote :
    ℕ
    → String
    → String
    → String
    → Option String
    → List String
    → String
    → Option ℕ
    → List String
    → Store
    → Result (Unit {0}) StoreError × Store
unfolding all_distinct eligible_rows
create_vote now vote_id room_id title description options created_by closes_at eligible_agents s =
    if any (has_vote_id vote_id) s.votes
    then (err db, s)
    else if any (is_eligible_row vote_id) s.eligible
    then (err db, s)
    else if not (all_distinct eligible_agents)
    then (err db, s)
    else let vote : VoteMeta = record {
      vote_id = vote_id;
      room_id = room_id;
      title = title;
      description = description;
      options = options;
      created_by = created_by;
      created_at = to_millis now;
      closes_at = option_millis closes_at;
      status = "open";
      eligible_voters = length eligible_agents;
    } in
      (
        ok tt,
        record s {
          votes = s.votes ++ vote ∷ [];
          eligible = s.eligible ++ eligible_rows vote_id eligible_agents;
        },
      )

abbrev pub agent_column : String × String → String
agent_column (v, a) = a

-- `ORDER BY agent_id`
abbrev pub by_text : String → String → Bool
by_text a b = elim (compare a b) [ Ordering.gt ↦ false | _ ↦ true ]

unfoldable pub get_vote_eligible_agents : String → Store → List String
get_vote_eligible_agents vote_id s =
    order_by by_text (map agent_column (retain (is_eligible_row vote_id) s.eligible))

unfoldable pub cast_vote :
    ℕ → String → String → String → ℕ → Store → Result (Unit {0}) StoreError × Store
unfolding find_row
cast_vote now vote_id agent_id agent_name option_index s =
    elim (find_row (has_vote_id vote_id) s.votes) [
      | none ↦ (err vote_not_found, s)
      | some v ↦
          if not (v.status == "open")
          then (err vote_closed, s)
          else if any (is_ballot_by vote_id agent_id) s.ballots
          then (err already_voted, s)
          else let ballot : BallotRow = record {
            vote_id = vote_id;
            agent_id = agent_id;
            agent_name = agent_name;
            option_index = option_index;
            cast_at = to_millis now;
          } in
            (ok tt, record s { ballots = s.ballots ++ ballot ∷ [] })
    ]

unfoldable pub get_vote_ballot_count : String → Store → ℕ
unfolding count_where
get_vote_ballot_count vote_id s = count_where (is_ballot_of vote_id) s.ballots

abbrev pub by_cast : BallotRow → BallotRow → Bool
by_cast a b = leb a.cast_at b.cast_at

abbrev pub ballot_entry : BallotRow → BallotEntry
ballot_entry b = record {
  agent_id = b.agent_id;
  agent_name = b.agent_name;
  option_index = b.option_index;
}

unfoldable pub get_vote_ballots : String → Store → List BallotEntry
get_vote_ballots vote_id s =
    map ballot_entry (order_by by_cast (retain (is_ballot_of vote_id) s.ballots))

unfoldable pub close_vote : String → Store → Store
unfolding update_where
close_vote vote_id s = record s {
  votes =
      update_where (has_vote_id vote_id) (λ (v : VoteMeta). record v { status = "closed" }) s.votes;
}

unfoldable pub get_vote_meta : String → Store → Option VoteMeta
unfolding find_row
get_vote_meta vote_id s = find_row (has_vote_id vote_id) s.votes

-- `ORDER BY created_at DESC, vote_id DESC`
abbrev pub newest_first : VoteMeta → VoteMeta → Bool
newest_first a b =
    if eqb a.created_at b.created_at
    then by_text b.vote_id a.vote_id
    else leb b.created_at a.created_at

unfoldable pub list_votes : String → ℕ → Store → List VoteMeta
unfolding order_by
list_votes room_id limit s =
    take limit (order_by newest_first (retain (λ (v : VoteMeta). v.room_id == room_id) s.votes))

abbrev pub is_open : VoteMeta → Bool
is_open v = v.status == "open"

abbrev pub oldest_first : VoteMeta → VoteMeta → Bool
oldest_first a b = leb a.created_at b.created_at

unfoldable pub list_open_votes : Store → List VoteMeta
unfolding order_by
list_open_votes s = order_by oldest_first (retain is_open s.votes)

-- The vote that `VoteManager::new` makes of a stored one; the deadline's timer runs `deadline`.
unfoldable pub restored_vote : VoteMeta → Store → ActiveVote
restored_vote v s = record {
  vote_id = v.vote_id;
  room_id = v.room_id;
  title = v.title;
  description = v.description;
  options = v.options;
  created_by = v.created_by;
  created_at = v.created_at;
  closes_at = v.closes_at;
  ballots = get_vote_ballots v.vote_id s;
  eligible_voters = v.eligible_voters;
  eligible_agents = get_vote_eligible_agents v.vote_id s;
}

unfoldable pub insert_votes : List VoteMeta → Store → Dict ActiveVote → Dict ActiveVote
insert_votes [] s m = m
insert_votes (v ∷ vs) s m = insert_votes vs s (insert v.vote_id (restored_vote v s) m)

unfoldable pub new : Store → VoteManager
unfolding insert_votes
new s = record {
  active_votes = insert_votes (list_open_votes s) s [];
  active_elections = [];
  room_leaders = [];
}

abbrev pub has_task_id : String → TaskInfo → Bool
has_task_id task_id t = t.task_id == task_id

-- The row of a task: the two times lose what is below a millisecond.
unfoldable pub task_row : TaskInfo → TaskInfo
task_row t = record t {
  created_at = to_millis t.created_at;
  updated_at = option_millis t.updated_at;
}

-- `ON CONFLICT(task_id) DO UPDATE SET status, assignee, updated_at, note`
abbrev pub updated_row : TaskInfo → TaskInfo → TaskInfo
updated_row t old = record old {
  status = t.status;
  assignee = t.assignee;
  updated_at = option_millis t.updated_at;
  note = t.note;
}

unfoldable pub save_task : TaskInfo → Store → Option Store
unfolding update_where task_row
save_task t s =
    if any (has_task_id t.task_id) s.tasks
    then some (record s { tasks = update_where (has_task_id t.task_id) (updated_row t) s.tasks })
    else if any (has_room_id t.room_id) s.rooms
    then some (record s { tasks = s.tasks ++ task_row t ∷ [] })
    else none

unfoldable pub load_tasks : Store → List TaskInfo
load_tasks s = s.tasks
