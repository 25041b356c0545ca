-- ===== src/Voting.antt =====
-- crates/cowchat-server/src/voting.rs: votes, elections and leaders of rooms. What a method does to
-- the store and to the room's members comes back as a list of effects, in the order in which the
-- source causes them. Timers are tokio's: `deadline` and `finish_election` are what they run.
pub mod Election
pub mod Tally
pub mod Ballots
pub mod Calls
pub mod Once
pub mod Complete
pub mod Leader
pub mod Cleanup
pub mod Tests
use cowchat4win.Base.{
  ℕ, zero, suc, ◌+◌, ◌*◌, String, Bool, true, false, not, ◌&&◌, ◌||◌, Option, none, some, List, [],
  ◌∷◌, ◌++◌, map, ◌==◌, if◌then◌else◌, ltb, leb, length, get_elem?, any, retain, contains, is_some,
  is_empty, unwrap_or,
}
use cowchat4win.Base.Dict.{Dict, lookup, insert, remove, retain_values, contains_key}
use cowchat4win.Protocol.{Frame, FrameType, ErrorCode, event, Json, obj, field, end, text}
use cowchat4win.Models.{VoteTally, BallotEntry, VoteResultPayload, result_value}
use cowchat4win.Tombstones.{nanos_per_sec}
use cowchat4win.Base.{Result, ok, err}

pub record ActiveVote : Type 0 where
  pub vote_id : String
  pub room_id : String
  pub title : String
  pub description : Option String
  pub options : List String
  pub created_by : String
  pub created_at : ℕ
  pub closes_at : Option ℕ
  pub ballots : List BallotEntry
  pub eligible_voters : ℕ
  pub eligible_agents : List String

pub record ActiveElection : Type 0 where
  pub room_id : String
  pub candidates : List String
  pub declined : List String
  pub started_by : String

pub record VoteManager : Type 0 where
  pub active_votes : Dict ActiveVote
  pub active_elections : Dict ActiveElection
  pub room_leaders : Dict String

-- `store.close_vote`, and `broker.broadcast_to_room_all`.
pub data Effect : Type 0 where
  close_vote : String → Effect
  broadcast : String → Frame → Effect

-- A duration is taken to be one that chrono can add. The vote that is stored; `schedule_deadline` then runs `deadline` after `duration_secs`.
unfoldable pub create_vote :
    ℕ
    → String
    → String
    → String
    → Option String
    → List String
    → String
    → Option ℕ
    → List String
    → VoteManager
    → ActiveVote × VoteManager
create_vote now vote_id room_id title description options created_by duration_secs eligible_agents
      m =
    let vote : ActiveVote = record {
      vote_id = vote_id;
      room_id = room_id;
      title = title;
      description = description;
      options = options;
      created_by = created_by;
      created_at = now;
      closes_at = elim duration_secs [ none ↦ none | some s ↦ some (now + s * nanos_per_sec) ];
      ballots = [];
      eligible_voters = length eligible_agents;
      eligible_agents = eligible_agents;
    } in
    (vote, record m { active_votes = insert vote_id vote m.active_votes })

-- `tally_counts[i] += 1`, where `i` is in range.
unfoldable pub bump : ℕ → List ℕ → List ℕ
bump i [] = []
bump zero (c ∷ cs) = (c + 1) ∷ cs
bump (suc i) (c ∷ cs) = c ∷ bump i cs

unfoldable pub zeros : List String → List ℕ
zeros [] = []
zeros (o ∷ os) = 0 ∷ zeros os

-- The loop over the ballots, which skips an index out of range.
unfoldable pub count_ballots : List BallotEntry → List ℕ → List ℕ
count_ballots [] counts = counts
count_ballots (b ∷ bs) counts =
    count_ballots bs
      (if ltb b.option_index (length counts) then bump b.option_index counts else counts)

-- `options.iter().enumerate().map(…)`, from index `i` on.
unfoldable pub tally_from : ℕ → List String → List ℕ → List VoteTally
tally_from i [] counts = []
tally_from i (o ∷ os) counts =
    record { option_index = i; option_text = o; count = unwrap_or (get_elem? counts i) 0 }
    ∷ tally_from (suc i) os counts

unfoldable pub vote_result : ActiveVote → VoteResultPayload
unfolding count_ballots tally_from zeros
vote_result vote = record {
  vote_id = vote.vote_id;
  room_id = vote.room_id;
  title = vote.title;
  options = vote.options;
  tally = tally_from 0 vote.options (count_ballots vote.ballots (zeros vote.options));
  ballots = vote.ballots;
  total_votes = length vote.ballots;
  eligible_voters = vote.eligible_voters;
}

unfoldable pub close_and_broadcast_vote : ActiveVote → List Effect
close_and_broadcast_vote vote =
    close_vote vote.vote_id
    ∷ broadcast vote.room_id (event FrameType.vote_result (result_value (vote_result vote)))
    ∷ []

-- `active_votes.remove(id)`, and the announcement where it was there.
unfoldable pub close_active : String → VoteManager → List Effect × VoteManager
close_active vote_id m = elim (lookup vote_id m.active_votes) [
  | none ↦ ([], m)
  | some vote ↦
      (close_and_broadcast_vote vote, record m { active_votes = remove vote_id m.active_votes })
]

-- What the timer of a vote runs.
unfoldable pub deadline : String → VoteManager → List Effect × VoteManager
unfolding close_active
deadline vote_id m = close_active vote_id m

unfoldable pub has_voted : String → List BallotEntry → Bool
has_voted agent_id [] = false
has_voted agent_id (b ∷ bs) = b.agent_id == agent_id || has_voted agent_id bs

-- The checks under the entry's lock, in order.
unfoldable pub check_ballot : String → ℕ → ActiveVote → Option ErrorCode
check_ballot agent_id option_index vote =
    if leb (length vote.options) option_index
    then some ErrorCode.invalid_option
    else if not (contains agent_id vote.eligible_agents)
    then some ErrorCode.access_denied
    else if has_voted agent_id vote.ballots
    then some ErrorCode.already_voted
    else none

-- The block that holds the entry: the ballot, the two counts, and whether the vote is complete.
unfoldable pub record_ballot :
    String → String → String → ℕ → VoteManager → Result (ℕ × ℕ × Bool) ErrorCode × VoteManager
unfolding check_ballot
record_ballot vote_id agent_id agent_name option_index m = elim (lookup vote_id m.active_votes) [
  | none ↦ (err ErrorCode.vote_not_found, m)
  | some vote ↦ elim (check_ballot agent_id option_index vote) [
    | some e ↦ (err e, m)
    | none ↦
        let ballot : BallotEntry = record {
          agent_id = agent_id;
          agent_name = agent_name;
          option_index = option_index;
        } in
        let vote' = record vote { ballots = vote.ballots ++ ballot ∷ [] } in
        (
          ok (
            length vote'.ballots,
            vote'.eligible_voters,
            leb vote'.eligible_voters (length vote'.ballots),
          ),
          record m { active_votes = insert vote_id vote' m.active_votes },
        )
  ]
]

unfoldable pub close_if : Bool → String → VoteManager → List Effect × VoteManager
unfolding close_active
close_if should_close vote_id m = if should_close then close_active vote_id m else ([], m)

unfoldable pub cast_vote :
    String
    → String
    → String
    → ℕ
    → VoteManager
    → Result (ℕ × ℕ) ErrorCode × List Effect × VoteManager
unfolding record_ballot close_if
cast_vote vote_id agent_id agent_name option_index m =
    let (r, m') = record_ballot vote_id agent_id agent_name option_index m in
    elim r [
      | err e ↦ (err e, [], m')
      | ok (votes_cast, eligible, should_close) ↦
          let (effects, m'') = close_if should_close vote_id m' in
          (ok (votes_cast, eligible), effects, m'')
    ]
