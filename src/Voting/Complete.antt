-- ===== src/Voting/Complete.antt =====
-- The end of a vote in which everybody votes.
use cowchat4win.Base.{
  ℕ, suc, ◌+◌, ◌<◌, String, ◌≡◌, ◌≢◌, refl, sym, ap, subst, Bool, true, false, none, some, List, [],
  ◌∷◌, ◌++◌, ◌∙◌, arith, eq_iff, eq_refl, leb, length, length-append, contains, contains-append,
  Distinct,
}
use cowchat4win.Base.Dict.{lookup, insert, remove, lookup-insert, lookup-remove}
use cowchat4win.Protocol.{ErrorCode, FrameType, event}
use cowchat4win.Models.{BallotEntry, result_value}
use cowchat4win.Base.{Result, ok, err}
use cowchat4win.Voting.{
  VoteManager, ActiveVote, Effect, close_vote, broadcast, record_ballot, vote_result, close_if,
  cast_vote, close_and_broadcast_vote,
}
use cowchat4win.Voting.Tally.{AllBelow, tally_of, tally-vote_result}
use cowchat4win.Voting.Ballots.{
  voters, AllIn, with_ballot, Passes, Passes-check_ballot, voters-append,
}
use cowchat4win.Voting.Calls.{close_active-some}

-- The ballots, cast in order.
abbrev pub cast_all : String → List BallotEntry → VoteManager → List Effect × VoteManager
cast_all id [] m = ([], m)
cast_all id (b ∷ bs) m =
    let (answer, effects, m') = cast_vote id b.agent_id b.agent_name b.option_index m in
    let (more, m'') = cast_all id bs m' in (effects ++ more, m'')

abbrev outcome : Result (ℕ × ℕ) ErrorCode × List Effect × VoteManager → List Effect × VoteManager
outcome (answer, effects, m) = (effects, m)

-- `cast_vote`, from the result of its first half on.
abbrev settled : String → Result (ℕ × ℕ × Bool) ErrorCode × VoteManager → List Effect × VoteManager
settled id (r, m) = outcome (elim r as (λ x. Result (ℕ × ℕ) ErrorCode × List Effect × VoteManager) [
  | err e ↦ (err e, [], m)
  | ok (votes_cast, eligible, should_close) ↦
      let (effects, m') = close_if should_close id m in (ok (votes_cast, eligible), effects, m')
])

abbrev stored : String → ActiveVote → VoteManager → VoteManager
stored id v m = record m { active_votes = insert id v m.active_votes }

module _ (id : String) (m : VoteManager) (v : ActiveVote) (b : BallotEntry) where
  recorded :
      lookup id m.active_votes ≡ some v
      → Passes b.agent_id b.option_index v
      → record_ballot id b.agent_id b.agent_name b.option_index m ≡ (
        ok (
          length (v.ballots ++ b ∷ []),
          v.eligible_voters,
          leb v.eligible_voters (length (v.ballots ++ b ∷ [])),
        ),
        stored id (with_ballot v b) m,
      )
  unfolding record_ballot
  recorded e p = rw (e, Passes-check_ballot b.agent_id b.option_index v p, record_ballot) refl

  -- A ballot that leaves somebody to vote closes nothing.
  cast_vote-more :
      lookup id m.active_votes ≡ some v
      → Passes b.agent_id b.option_index v
      → suc (length v.ballots) < v.eligible_voters
      → outcome (cast_vote id b.agent_id b.agent_name b.option_index m)
        ≡ ([], stored id (with_ballot v b) m)
  unfolding cast_vote close_if
  cast_vote-more e p lt =
      let open_still : leb v.eligible_voters (length (v.ballots ++ b ∷ [])) ≡ false =
        ground (arith, lt, length-append v.ballots (b ∷ [])) in
      ap (settled id) (recorded e p) ∙ rw (open_still, close_if) refl

  -- The last ballot closes the vote.
  cast_vote-last :
      lookup id m.active_votes ≡ some v
      → Passes b.agent_id b.option_index v
      → v.eligible_voters ≡ suc (length v.ballots)
      → outcome (cast_vote id b.agent_id b.agent_name b.option_index m) ≡ (
        close_and_broadcast_vote (with_ballot v b),
        record m { active_votes = remove id (insert id (with_ballot v b) m.active_votes) },
      )
  unfolding cast_vote close_if
  cast_vote-last e p full =
      let done : leb v.eligible_voters (length (v.ballots ++ b ∷ [])) ≡ true =
        ground (arith, full, length-append v.ballots (b ∷ [])) in
      let there : lookup id (insert id (with_ballot v b) m.active_votes) ≡ some (with_ballot v b) =
        ground (arith, eq_refl id, lookup-insert id id (with_ballot v b) m.active_votes) in
      ap (settled id) (recorded e p)
      ∙ ap (λ should. close_if should id (stored id (with_ballot v b) m)) done
      ∙ close_active-some id (stored id (with_ballot v b) m) (with_ballot v b) there

-- Each ballot passes the checks when its turn comes.
abbrev Fits : ActiveVote → List BallotEntry → Type 0
Fits v [] = Unit
Fits v (b ∷ bs) = Passes b.agent_id b.option_index v × Fits (with_ballot v b) bs

abbrev with_ballots : ActiveVote → List BallotEntry → ActiveVote
with_ballots v [] = v
with_ballots v (b ∷ bs) = with_ballots (with_ballot v b) bs

abbrev Finished : String → ActiveVote → List Effect × VoteManager → Type 0
Finished id v r = (r.0 ≡ close_and_broadcast_vote v) × (lookup id r.1.active_votes ≡ none)

append-[] : (es : List Effect) → es ++ [] ≡ es
append-[] [] = refl
append-[] (e ∷ es) = ap (λ r. e ∷ r) (append-[] es)

abbrev then_all : String → List BallotEntry → List Effect × VoteManager → List Effect × VoteManager
then_all id bs r = let (more, m'') = cast_all id bs r.1 in (r.0 ++ more, m'')

cast_all-Finished :
    (id : String) (b : BallotEntry) (bs : List BallotEntry) (m : VoteManager) (v : ActiveVote)
    → lookup id m.active_votes ≡ some v
    → Fits v (b ∷ bs)
    → length v.ballots + suc (length bs) ≡ v.eligible_voters
    → Finished id (with_ballots v (b ∷ bs)) (cast_all id (b ∷ bs) m)
cast_all-Finished id b [] m v e (p, f) full =
    subst (λ r. Finished id (with_ballot v b) (then_all id [] r))
      (sym (cast_vote-last id m v b e p (omega arith)))
      (
        append-[] (close_and_broadcast_vote (with_ballot v b)),
        ground
            (arith, eq_refl id, lookup-remove id id (insert id (with_ballot v b) m.active_votes)),
      )
cast_all-Finished id b (c ∷ bs) m v e (p, f) full =
    subst (λ r. Finished id (with_ballots v (b ∷ c ∷ bs)) (then_all id (c ∷ bs) r))
      (sym (cast_vote-more id m v b e p (omega arith)))
      (cast_all-Finished id c bs (stored id (with_ballot v b) m) (with_ballot v b)
        (ground (arith, eq_refl id, lookup-insert id id (with_ballot v b) m.active_votes)) f
        (omega (arith, length-append v.ballots (b ∷ []))))

-- Nobody of the ballots has voted before.
abbrev Apart : List String → List BallotEntry → Type 0
Apart prior [] = Unit
Apart prior (b ∷ bs) = (contains b.agent_id prior ≡ false) × Apart prior bs

append-Apart :
    (prior : List String) (a : String) (bs : List BallotEntry)
    → Apart prior bs
    → contains a (voters bs) ≡ false
    → Apart (prior ++ a ∷ []) bs
append-Apart prior a [] h n = tt
append-Apart prior a (b ∷ bs) (new, h) n = (
  ground (
    arith,
    n,
    new,
    eq_iff a b.agent_id,
    eq_iff b.agent_id a,
    contains-append b.agent_id prior (a ∷ []),
  ),
  append-Apart prior a bs h (ground (arith, n)),
)

ballots_fit :
    (v : ActiveVote) (bs : List BallotEntry)
    → Apart (voters v.ballots) bs
    → Distinct (voters bs)
    → AllIn v.eligible_agents (voters bs)
    → AllBelow (length v.options) bs
    → Fits v bs
ballots_fit v [] h d i l = tt
ballots_fit v (b ∷ bs) (new, h) (n, d) (i, is') (lt, ls) = (
  record { in_range = lt; is_eligible = i; is_new = new },
  ballots_fit (with_ballot v b) bs
      (subst (λ xs. Apart xs bs) (sym (voters-append v.ballots b))
        (append-Apart (voters v.ballots) b.agent_id bs h n))
      d is' ls,
)

with_ballots-append :
    (v : ActiveVote) (bs : List BallotEntry)
    → with_ballots v bs ≡ record v { ballots = v.ballots ++ bs }
with_ballots-append v [] = ap (λ bs. record v { ballots = bs }) (sym (append_nil v.ballots))
  where
    append_nil : (bs : List BallotEntry) → bs ++ [] ≡ bs
    append_nil [] = refl
    append_nil (b ∷ bs) = ap (λ r. b ∷ r) (append_nil bs)
with_ballots-append v (b ∷ bs) =
    with_ballots-append (with_ballot v b) bs
    ∙ ap (λ bs'. record v { ballots = bs' }) (append_assoc v.ballots)
  where
    append_assoc : (xs : List BallotEntry) → (xs ++ b ∷ []) ++ bs ≡ xs ++ b ∷ bs
    append_assoc [] = refl
    append_assoc (x ∷ xs) = ap (λ r. x ∷ r) (append_assoc xs)

-- What an end of the vote does: the store closes it, and its room gets the result, with every option
-- and its number of ballots.
abbrev pub result_sent : ActiveVote → List BallotEntry → List Effect
result_sent v bs =
    close_vote v.vote_id
    ∷ broadcast v.room_id (
        event FrameType.vote_result (
          result_value (record {
            vote_id = v.vote_id;
            room_id = v.room_id;
            title = v.title;
            options = v.options;
            tally = tally_of 0 v.options bs;
            ballots = bs;
            total_votes = length bs;
            eligible_voters = v.eligible_voters;
          })))
    ∷ []

close_and_broadcast_vote-result_sent :
    (v : ActiveVote) (bs : List BallotEntry)
    → close_and_broadcast_vote (record v { ballots = bs }) ≡ result_sent v bs
unfolding close_and_broadcast_vote vote_result
close_and_broadcast_vote-result_sent v bs =
    ap
      (λ ts.
        close_vote v.vote_id
        ∷ broadcast v.room_id (
            event FrameType.vote_result
              (result_value (record (vote_result (record v { ballots = bs })) { tally = ts })))
        ∷ [])
      (tally-vote_result (record v { ballots = bs }))

-- When as many different eligible agents as the vote counts cast a ballot for a listed option, the
-- store closes the vote once, its room gets its result once, with exactly these ballots and their
-- count for each option, and the vote is not open any more.
pub everyone_votes :
    (id : String) (m : VoteManager) (v : ActiveVote) (bs : List BallotEntry)
    → lookup id m.active_votes ≡ some v
    → v.ballots ≡ []
    → bs ≢ []
    → length bs ≡ v.eligible_voters
    → Distinct (voters bs)
    → AllIn v.eligible_agents (voters bs)
    → AllBelow (length v.options) bs
    → ((cast_all id bs m).0 ≡ result_sent v bs)
      × (lookup id (cast_all id bs m).1.active_votes ≡ none)
everyone_votes id m v [] e empty ne n d i l = absurd (ne refl)
everyone_votes id m v (b ∷ bs) e empty ne n d i l =
    let (sent, gone) =
      subst (λ w. Finished id w (cast_all id (b ∷ bs) m))
        (with_ballots-append v (b ∷ bs) ∙ ap (λ bs'. record v { ballots = bs' ++ b ∷ bs }) empty)
        (cast_all-Finished id b bs m v e
          (ballots_fit v (b ∷ bs)
            (subst (λ bs'. Apart (voters bs') (b ∷ bs)) (sym empty) (apart_nil (b ∷ bs))) d i l)
          (ground (arith, empty, n))) in
    (sent ∙ close_and_broadcast_vote-result_sent v (b ∷ bs), gone)
  where
    apart_nil : (bs : List BallotEntry) → Apart [] bs
    apart_nil [] = tt
    apart_nil (b ∷ bs) = (refl, apart_nil bs)
