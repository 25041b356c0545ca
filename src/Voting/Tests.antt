-- ===== src/Voting/Tests.antt =====
-- The theorems on votes, elections and leaders at concrete rooms.
use cowchat4win.Base.{
  ◌+◌, ◌≤◌, String, ◌≡◌, refl, true, false, none, some, List, [], ◌∷◌, arith, ◌==◌, eq_refl,
  contains, unwrap_or, Distinct, ◌⊎◌,
}
use cowchat4win.Base.Dict.{lookup, insert}
use cowchat4win.Protocol.{FrameType, event}
use cowchat4win.Models.{BallotEntry, result_value}
use cowchat4win.Voting.{
  VoteManager, ActiveVote, ActiveElection, close_vote, broadcast, create_vote, record_ballot,
  check_ballot, has_voted, close_active, close_and_broadcast_vote, vote_result,
}
use cowchat4win.Voting.Election.{
  Chooser, start_election, cleared, elected, remaining, finish_election, get_leader, is_leader,
  clear_leader_if_agent, forget_room,
}
use cowchat4win.Voting.Tally.{tally-vote_result, total}
use cowchat4win.Voting.Ballots.{voters, AllIn}
use cowchat4win.Voting.Calls.{
  VoteCall, opens, records, closes, expires, vote_run, open_votes_are_fair,
}
use cowchat4win.Voting.Once.{announced, closings, open_count, announced_once}
use cowchat4win.Voting.Complete.{cast_all, everyone_votes}
use cowchat4win.Voting.Leader.{
  Winner, decline_all, finish_election-elects, all_declined_keeps_leader,
}
use cowchat4win.Voting.Cleanup.{get_leader-clear_leader_if_agent, forgotten_room_is_silent}

abbrev ballot_a : BallotEntry
ballot_a = record { agent_id = "a"; agent_name = "Ann"; option_index = 1 }

abbrev ballot_b : BallotEntry
ballot_b = record { agent_id = "b"; agent_name = "Bob"; option_index = 1 }

abbrev lunch : List BallotEntry → ActiveVote
lunch ballots = record {
  vote_id = "v";
  room_id = "lobby";
  title = "Lunch";
  description = none;
  options = "soup" ∷ "rice" ∷ [];
  created_by = "a";
  created_at = 5;
  closes_at = none;
  ballots = ballots;
  eligible_voters = 2;
  eligible_agents = "a" ∷ "b" ∷ [];
}

abbrev idle : VoteManager
idle = record { active_votes = []; active_elections = []; room_leaders = ("lobby", "a") ∷ [] }

abbrev voting : VoteManager
voting = record idle { active_votes = ("v", lunch []) ∷ [] }

abbrev opening : List VoteCall
opening =
    opens 5 "v" "lobby" "Lunch" none ("soup" ∷ "rice" ∷ []) "a" none ("a" ∷ "b" ∷ [])
    ∷ records "v" "a" "Ann" 1
    ∷ records "v" "a" "Ann" 0
    ∷ []

contains-first : (c : String) (cs : List String) → contains c (c ∷ cs) ≡ true
contains-first c cs = ground (arith, eq_refl c)

abbrev first_of : Chooser
first_of = record { choose = λ c cs. c; choose-contains = contains-first }

tally-vote_result_example :
    (vote_result (lunch (ballot_a ∷ ballot_b ∷ []))).tally
    ≡ record { option_index = 0; option_text = "soup"; count = 0 }
      ∷ record { option_index = 1; option_text = "rice"; count = 2 }
      ∷ []
tally-vote_result_example = tally-vote_result (lunch (ballot_a ∷ ballot_b ∷ []))

open_votes_are_fair_example :
    Distinct (voters (ballot_a ∷ []))
    × AllIn ("a" ∷ "b" ∷ []) (voters (ballot_a ∷ []))
    × (total (vote_result (lunch (ballot_a ∷ []))).tally
        ≡ (vote_result (lunch (ballot_a ∷ []))).total_votes)
unfolding create_vote record_ballot check_ballot has_voted lookup insert
open_votes_are_fair_example = open_votes_are_fair idle opening "v" (lunch (ballot_a ∷ [])) refl refl

announced_once_example :
    let (effects, after) =
      vote_run voting (records "v" "a" "Ann" 1 ∷ expires "v" ∷ closes true "v" ∷ []) in
    (announced "v" effects + open_count "v" after ≤ open_count "v" voting)
    × (announced "v" effects ≡ closings "v" effects)
announced_once_example =
    announced_once "v" voting (records "v" "a" "Ann" 1 ∷ expires "v" ∷ closes true "v" ∷ [])
      ((refl, record { once = tt; eligible = tt; listed = tt }), tt) tt

everyone_votes_example :
    let (effects, after) = cast_all "v" (ballot_b ∷ ballot_a ∷ []) voting in
    (effects
      ≡ close_vote "v"
        ∷ broadcast "lobby" (
            event FrameType.vote_result (
              result_value (record {
                vote_id = "v";
                room_id = "lobby";
                title = "Lunch";
                options = "soup" ∷ "rice" ∷ [];
                tally =
                    record { option_index = 0; option_text = "soup"; count = 0 }
                    ∷ record { option_index = 1; option_text = "rice"; count = 2 }
                    ∷ [];
                ballots = ballot_b ∷ ballot_a ∷ [];
                total_votes = 2;
                eligible_voters = 2;
              })))
        ∷ [])
    × (lookup "v" after.active_votes ≡ none)
unfolding lookup
everyone_votes_example =
    everyone_votes "v" voting (lunch []) (ballot_b ∷ ballot_a ∷ []) refl refl (λ e. cc) refl
      (refl, (refl, tt)) (refl, (refl, tt)) (omega arith, (omega arith, tt))

abbrev contest : ActiveElection
contest = record {
  room_id = "lobby";
  candidates = "a" ∷ "b" ∷ [];
  declined = "a" ∷ [];
  started_by = "a";
}

abbrev electing : VoteManager
electing = record idle { active_elections = ("lobby", contest) ∷ [] }

finish_election-elects_example :
    let (effects, after) =
      finish_election first_of "lobby" false false (λ a. some "Bob") electing in
    (w : String) × Winner contest w
    × (get_leader "lobby" after ≡ some w)
    × (effects ≡ elected "lobby" w (unwrap_or (some "Bob") w) ∷ [])
    × (lookup "lobby" after.active_elections ≡ none)
unfolding lookup remaining
finish_election-elects_example =
    finish_election-elects first_of "lobby" (λ a. some "Bob") electing contest refl (λ e. cc)

all_declined_keeps_leader_example :
    let declined =
      decline_all "lobby" ("a" ∷ "b" ∷ []) (start_election "lobby" ("a" ∷ "b" ∷ []) "b" idle).1 in
    let (effects, after) = finish_election first_of "lobby" false false (λ a. none) declined in
    (effects ≡ cleared "lobby" "all candidates declined" ∷ [])
    × (get_leader "lobby" after ≡ some "a")
unfolding lookup get_leader
all_declined_keeps_leader_example =
    all_declined_keeps_leader first_of "lobby" (λ a. none) ("a" ∷ "b" ∷ []) "b" idle refl

get_leader-clear_leader_if_agent_example :
    let after = (clear_leader_if_agent "a" idle).1 in
    (is_leader "lobby" "a" after ≡ false) × (get_leader "lobby" after ≡ none)
unfolding lookup get_leader is_leader
get_leader-clear_leader_if_agent_example =
    get_leader-clear_leader_if_agent "a" "lobby" idle (refl, tt)

forgotten_room_is_silent_example :
    let after = forget_room "lobby" voting in
    ((finish_election first_of "lobby" false false (λ a. none) after).0 ≡ [])
    × (get_leader "lobby" (finish_election first_of "lobby" false false (λ a. none) after).1 ≡ none)
    × (((close_active "v" after).0 ≡ [])
        ⊎ ((v : ActiveVote) × ((v.room_id == "lobby") ≡ false)
            × ((close_active "v" after).0 ≡ close_and_broadcast_vote v)))
unfolding lookup
forgotten_room_is_silent_example =
    forgotten_room_is_silent first_of "lobby" "v" false false (λ a. none) voting (refl, tt)
