-- ===== src/Voting/Tally.antt =====
-- The tally of a vote, against a direct count of its ballots.
use cowchat4win.Base.{
  ℕ, zero, suc, ◌+◌, ◌<◌, String, ◌≡◌, refl, ◌&&◌, List, [], ◌∷◌, arith, if◌then◌else◌, ltb, leb,
  eqb, length, get_elem?, unwrap_or, Bool-cases, inl, inr,
}
use cowchat4win.Models.{VoteTally, BallotEntry}
use cowchat4win.Voting.{ActiveVote, bump, zeros, count_ballots, tally_from, vote_result}

-- How many ballots are for option `i`.
abbrev pub votes_for : ℕ → List BallotEntry → ℕ
votes_for i [] = 0
votes_for i (b ∷ bs) = (if eqb b.option_index i then 1 else 0) + votes_for i bs

-- What a tally should be: every option in order, with its own number of ballots.
abbrev pub tally_of : ℕ → List String → List BallotEntry → List VoteTally
tally_of i [] bs = []
tally_of i (o ∷ os) bs =
    record { option_index = i; option_text = o; count = votes_for i bs } ∷ tally_of (suc i) os bs

abbrev pub total : List VoteTally → ℕ
total [] = 0
total (t ∷ ts) = t.count + total ts

-- Every ballot is for one of the first `n` options.
abbrev pub AllBelow : ℕ → List BallotEntry → Type 0
AllBelow n [] = Unit
AllBelow n (b ∷ bs) = (b.option_index < n) × AllBelow n bs

abbrev at : List ℕ → ℕ → ℕ
at counts i = unwrap_or (get_elem? counts i) 0

length-bump : (i : ℕ) (cs : List ℕ) → length (bump i cs) ≡ length cs
unfolding bump
length-bump i [] = refl
length-bump zero (c ∷ cs) = refl
length-bump (suc i) (c ∷ cs) = omega (arith, length-bump i cs)

at-bump :
    (i j : ℕ) (cs : List ℕ)
    → i < length cs
    → at (bump i cs) j ≡ at cs j + (if eqb i j then 1 else 0)
unfolding bump
at-bump i j [] h = elim h [ ]
at-bump zero zero (c ∷ cs) h = refl
at-bump zero (suc j) (c ∷ cs) h = ground arith
at-bump (suc i) zero (c ∷ cs) h = ground arith
at-bump (suc i) (suc j) (c ∷ cs) h = ground (arith, at-bump i j cs)

at-count_ballots :
    (bs : List BallotEntry) (cs : List ℕ) (j : ℕ)
    → j < length cs
    → at (count_ballots bs cs) j ≡ at cs j + votes_for j bs
unfolding count_ballots
at-count_ballots [] cs j h = omega arith
at-count_ballots (b ∷ bs) cs j h = elim (Bool-cases (ltb b.option_index (length cs))) [
  | inl e ↦ rw e (
      ground (
        arith,
        at-count_ballots bs (bump b.option_index cs) j,
        length-bump b.option_index cs,
        at-bump b.option_index j cs,
      ))
  | inr e ↦ rw e (ground (arith, at-count_ballots bs cs j h))
]

at-zeros : (os : List String) (j : ℕ) → at (zeros os) j ≡ 0
unfolding zeros
at-zeros [] j = refl
at-zeros (o ∷ os) zero = refl
at-zeros (o ∷ os) (suc j) = at-zeros os j

length-zeros : (os : List String) → length (zeros os) ≡ length os
unfolding zeros
length-zeros [] = refl
length-zeros (o ∷ os) = omega (arith, length-zeros os)

-- Where the counts agree with the ballots at each option that is left, so does the tally.
tally_from-tally_of :
    (i : ℕ) (os : List String) (cs : List ℕ) (bs : List BallotEntry)
    → ((k : ℕ) → k < length os → at cs (i + k) ≡ votes_for (i + k) bs)
    → tally_from i os cs ≡ tally_of i os bs
unfolding tally_from
tally_from-tally_of i [] cs bs h = refl
tally_from-tally_of i (o ∷ os) cs bs h =
    let here : at cs i ≡ votes_for i bs = ground (arith, h 0) in
    let rest : (k : ℕ) → k < length os → at cs (suc i + k) ≡ votes_for (suc i + k) bs =
      λ k lt. ground (arith, h (suc k)) in
    rw (here, tally_from-tally_of (suc i) os cs bs rest) refl

-- The announced tally lists every option in order, each with the number of its ballots.
pub tally-vote_result :
    (vote : ActiveVote) → (vote_result vote).tally ≡ tally_of 0 vote.options vote.ballots
unfolding vote_result
tally-vote_result vote =
    tally_from-tally_of 0 vote.options (count_ballots vote.ballots (zeros vote.options))
      vote.ballots
      (λ k lt. ground (
        arith,
        at-count_ballots vote.ballots (zeros vote.options) k,
        at-zeros vote.options k,
        length-zeros vote.options,
      ))

-- The options from `i` on, against one ballot.
one_vote :
    (i : ℕ) (os : List String) (b : BallotEntry) (bs : List BallotEntry)
    → total (tally_of i os (b ∷ bs))
      ≡ (if leb i b.option_index && ltb b.option_index (i + length os) then 1 else 0)
        + total (tally_of i os bs)
one_vote i [] b bs = ground arith
one_vote i (o ∷ os) b bs = ground (arith, one_vote (suc i) os b bs)

-- With ballots for listed options only, the counts of the options add up to the ballots.
pub total-tally_of :
    (os : List String) (bs : List BallotEntry)
    → AllBelow (length os) bs
    → total (tally_of 0 os bs) ≡ length bs
total-tally_of os [] h = no_votes 0 os
  where
    no_votes : (i : ℕ) (os : List String) → total (tally_of i os []) ≡ 0
    no_votes i [] = refl
    no_votes i (o ∷ os) = omega (arith, no_votes (suc i) os)
total-tally_of os (b ∷ bs) h = ground (arith, one_vote 0 os b bs, total-tally_of os bs)
