-- ===== src/Voting/Ballots.antt =====
-- Which ballots an open vote can hold, and how a vote comes to its end.
use cowchat4win.Base.{
  ℕ, ◌<◌, String, ◌≡◌, refl, sym, ap, subst, true, false, ◌||◌, none, List, [], ◌∷◌, ◌++◌, arith,
  ◌==◌, length, contains, Distinct, append-Distinct,
}
use cowchat4win.Base.Dict.{Dict}
use cowchat4win.Base.DictAll.{All}
use cowchat4win.Models.{BallotEntry}
use cowchat4win.Voting.{ActiveVote, has_voted, check_ballot}
use cowchat4win.Voting.Tally.{AllBelow}

-- Who voted, in order.
abbrev pub voters : List BallotEntry → List String
voters [] = []
voters (b ∷ bs) = b.agent_id ∷ voters bs

abbrev pub AllIn : List String → List String → Type 0
AllIn set [] = Unit
AllIn set (a ∷ as') = (contains a set ≡ true) × AllIn set as'

-- One ballot for each voter, by eligible agents, for listed options.
pub record IsFair (v : ActiveVote) : Type 0 where
  pub once : Distinct (voters v.ballots)
  pub eligible : AllIn v.eligible_agents (voters v.ballots)
  pub listed : AllBelow (length v.options) v.ballots

-- An open vote is fair, and stands under its own id.
abbrev pub Fair : String → ActiveVote → Type 0
Fair k v = (v.vote_id ≡ k) × IsFair v

abbrev pub AllFair : Dict ActiveVote → Type 0
AllFair = All Fair

has_voted-voters : (a : String) (bs : List BallotEntry) → has_voted a bs ≡ contains a (voters bs)
unfolding has_voted
has_voted-voters a [] = refl
has_voted-voters a (b ∷ bs) = ap (λ r. b.agent_id == a || r) (has_voted-voters a bs)

pub voters-append :
    (bs : List BallotEntry) (b : BallotEntry) → voters (bs ++ b ∷ []) ≡ voters bs ++ b.agent_id ∷ []
voters-append [] b = refl
voters-append (c ∷ bs) b = ap (λ r. c.agent_id ∷ r) (voters-append bs b)

append-AllIn :
    (set xs : List String) (a : String)
    → AllIn set xs
    → contains a set ≡ true
    → AllIn set (xs ++ a ∷ [])
append-AllIn set [] a h e = (e, tt)
append-AllIn set (x ∷ xs) a (i, h) e = (i, append-AllIn set xs a h e)

append-AllBelow :
    (n : ℕ) (bs : List BallotEntry) (b : BallotEntry)
    → AllBelow n bs
    → b.option_index < n
    → AllBelow n (bs ++ b ∷ [])
append-AllBelow n [] b h e = (e, tt)
append-AllBelow n (c ∷ bs) b (i, h) e = (i, append-AllBelow n bs b h e)

-- What the checks let through.
pub record Passes (agent_id : String) (i : ℕ) (v : ActiveVote) : Type 0 where
  pub in_range : i < length v.options
  pub is_eligible : contains agent_id v.eligible_agents ≡ true
  pub is_new : contains agent_id (voters v.ballots) ≡ false

pub check_ballot-Passes :
    (a : String) (i : ℕ) (v : ActiveVote) → check_ballot a i v ≡ none → Passes a i v
unfolding check_ballot
check_ballot-Passes a i v e = record {
  in_range = ground (arith, e);
  is_eligible = ground (arith, e);
  is_new = ground (arith, e, has_voted-voters a v.ballots);
}

pub Passes-check_ballot :
    (a : String) (i : ℕ) (v : ActiveVote) → Passes a i v → check_ballot a i v ≡ none
unfolding check_ballot
Passes-check_ballot a i v p =
    ground (arith, p.in_range, p.is_eligible, p.is_new, has_voted-voters a v.ballots)

abbrev pub with_ballot : ActiveVote → BallotEntry → ActiveVote
with_ballot v b = record v { ballots = v.ballots ++ b ∷ [] }

pub with_ballot-IsFair :
    (v : ActiveVote) (b : BallotEntry)
    → Passes b.agent_id b.option_index v
    → IsFair v
    → IsFair (with_ballot v b)
with_ballot-IsFair v b p h = record {
  once =
      subst Distinct (sym (voters-append v.ballots b))
        (append-Distinct b.agent_id (voters v.ballots) h.once p.is_new);
  eligible =
      subst (AllIn v.eligible_agents) (sym (voters-append v.ballots b))
        (append-AllIn v.eligible_agents (voters v.ballots) b.agent_id h.eligible p.is_eligible);
  listed = append-AllBelow (length v.options) v.ballots b h.listed p.in_range;
}
