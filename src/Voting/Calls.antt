-- ===== src/Voting/Calls.antt =====
-- Any order of the calls on votes. `cast_vote` drops its lock between the ballot and the close, so
-- the two halves are calls of their own here, and a timer may run between them.
use cowchat4win.Base.{
  ℕ, String, ◌≡◌, refl, sym, ap, subst, Bool, true, false, not, Option, none, some, List, [], ◌∷◌,
  ◌++◌, ◌⊎◌, ◌∙◌, ◌==◌, Distinct, Option-cases, inl, inr,
}
use cowchat4win.Base.Dict.{lookup, insert, remove}
use cowchat4win.Base.DictAll.{lookup-All, insert-All, remove-All, retain_values-All}
use cowchat4win.Models.{BallotEntry}
use cowchat4win.Voting.{
  VoteManager, ActiveVote, Effect, create_vote, close_active, deadline, check_ballot, record_ballot,
  close_if, close_and_broadcast_vote, vote_result,
}
use cowchat4win.Voting.Election.{forget_room}
use cowchat4win.Voting.Tally.{total, total-tally_of, tally-vote_result}
use cowchat4win.Voting.Ballots.{
  voters, AllIn, AllFair, Fair, check_ballot-Passes, with_ballot, with_ballot-IsFair,
}

pub data VoteCall : Type 0 where
  opens :
      ℕ
      → String
      → String
      → String
      → Option String
      → List String
      → String
      → Option ℕ
      → List String
      → VoteCall
  records : String → String → String → ℕ → VoteCall
  closes : Bool → String → VoteCall
  expires : String → VoteCall
  forgets : String → VoteCall

abbrev pub vote_step : VoteManager → VoteCall → List Effect × VoteManager
vote_step m (opens now id room title about options by secs agents) =
    ([], (create_vote now id room title about options by secs agents m).1)
vote_step m (records id agent name i) = ([], (record_ballot id agent name i m).1)
vote_step m (closes should id) = close_if should id m
vote_step m (expires id) = deadline id m
vote_step m (forgets room) = ([], forget_room room m)

abbrev pub vote_run : VoteManager → List VoteCall → List Effect × VoteManager
vote_run m [] = ([], m)
vote_run m (c ∷ cs) =
    let (effects, m') = vote_step m c in let (more, m'') = vote_run m' cs in (effects ++ more, m'')

pub record_ballot-cases :
    (id agent name : String) (i : ℕ) (m : VoteManager)
    → ((record_ballot id agent name i m).1 ≡ m)
      ⊎ ((v : ActiveVote) × (lookup id m.active_votes ≡ some v)
          × (check_ballot agent i v ≡ none)
          × ((record_ballot id agent name i m).1 ≡ record m {
            active_votes =
                insert id
                  (with_ballot v (record { agent_id = agent; agent_name = name; option_index = i }))
                  m.active_votes;
          }))
unfolding record_ballot
record_ballot-cases id agent name i m = elim (Option-cases (lookup id m.active_votes)) [
  | inl e ↦ inl (rw (e, record_ballot) refl)
  | inr (v, e) ↦ elim (Option-cases (check_ballot agent i v)) [
    | inl c ↦ inr (v, e, c, rw (e, c, record_ballot) refl)
    | inr (x, c) ↦ inl (rw (e, c, record_ballot) refl)
  ]
]

pub close_active-none :
    (id : String) (m : VoteManager) → lookup id m.active_votes ≡ none → close_active id m ≡ ([], m)
unfolding close_active
close_active-none id m e = rw (e, close_active) refl

pub close_active-some :
    (id : String) (m : VoteManager) (v : ActiveVote)
    → lookup id m.active_votes ≡ some v
    → close_active id m
      ≡ (close_and_broadcast_vote v, record m { active_votes = remove id m.active_votes })
unfolding close_active
close_active-some id m v e = rw (e, close_active) refl

abbrev IsFairManager : List Effect × VoteManager → Type 0
IsFairManager r = AllFair r.1.active_votes

close_active-AllFair :
    (id : String) (m : VoteManager) → AllFair m.active_votes → IsFairManager (close_active id m)
close_active-AllFair id m h = elim (Option-cases (lookup id m.active_votes)) [
  | inl e ↦ subst IsFairManager (sym (close_active-none id m e)) h
  | inr (v, e) ↦
      subst IsFairManager (sym (close_active-some id m v e)) (remove-All Fair id m.active_votes h)
]

pub vote_step-AllFair :
    (m : VoteManager) (c : VoteCall)
    → AllFair m.active_votes
    → AllFair (vote_step m c).1.active_votes
unfolding create_vote deadline close_if forget_room
vote_step-AllFair m (opens now id room title about options by secs agents) h =
    insert-All Fair id (create_vote now id room title about options by secs agents m).0
      m.active_votes (refl, record { once = tt; eligible = tt; listed = tt }) h
vote_step-AllFair m (records id agent name i) h = elim (record_ballot-cases id agent name i m) [
  | inl e ↦ subst (λ (n : VoteManager). AllFair n.active_votes) (sym e) h
  | inr (v, e, c, r) ↦
      let (own, fair) = lookup-All Fair id v m.active_votes h e in
      let ballot : BallotEntry = record { agent_id = agent; agent_name = name; option_index = i } in
      subst (λ (n : VoteManager). AllFair n.active_votes) (sym r)
        (insert-All Fair id (with_ballot v ballot) m.active_votes
          (own, with_ballot-IsFair v ballot (check_ballot-Passes agent i v c) fair) h)
]
vote_step-AllFair m (closes true id) h = close_active-AllFair id m h
vote_step-AllFair m (closes false id) h = h
vote_step-AllFair m (expires id) h = close_active-AllFair id m h
vote_step-AllFair m (forgets room) h =
    retain_values-All Fair (λ (v : ActiveVote). not (v.room_id == room)) m.active_votes h

vote_run-AllFair :
    (m : VoteManager) (cs : List VoteCall)
    → AllFair m.active_votes
    → AllFair (vote_run m cs).1.active_votes
vote_run-AllFair m [] h = h
vote_run-AllFair m (c ∷ cs) h = vote_run-AllFair (vote_step m c).1 cs (vote_step-AllFair m c h)

-- Whatever calls were made, an open vote has one ballot for each of its voters, all of them
-- eligible, and the tally announced for it adds up to its number of ballots.
pub open_votes_are_fair :
    (m : VoteManager) (cs : List VoteCall) (id : String) (v : ActiveVote)
    → m.active_votes ≡ []
    → lookup id (vote_run m cs).1.active_votes ≡ some v
    → Distinct (voters v.ballots)
      × AllIn v.eligible_agents (voters v.ballots)
      × (total (vote_result v).tally ≡ (vote_result v).total_votes)
unfolding vote_result
open_votes_are_fair m cs id v none_open e =
    let (own, fair) =
      lookup-All Fair id v (vote_run m cs).1.active_votes
        (vote_run-AllFair m cs (subst AllFair (sym none_open) tt)) e in
    (
      fair.once,
      fair.eligible,
      ap total (tally-vote_result v) ∙ total-tally_of v.options v.ballots fair.listed,
    )
