-- ===== src/Voting/Once.antt =====
-- How often a vote is announced, over any order of the calls on votes.
use cowchat4win.Base.{
  ℕ, ◌+◌, ◌≤◌, String, ◌≡◌, refl, sym, ap, subst, Bool, true, false, not, some, ◌&&◌, List, [], ◌∷◌,
  ◌++◌, ◌∙◌, arith, ◌==◌, eq_iff, if◌then◌else◌, Option-cases, inl, inr, is_some,
}
use cowchat4win.Base.Dict.{lookup, lookup-insert, lookup-remove, lookup-retain_values-none}
use cowchat4win.Base.DictAll.{lookup-All}
use cowchat4win.Protocol.{FrameType, Json, get, text}
use cowchat4win.Models.{result_value}
use cowchat4win.Voting.{
  VoteManager, ActiveVote, Effect, close_vote, broadcast, create_vote, close_active, deadline,
  record_ballot, close_if, close_and_broadcast_vote, vote_result,
}
use cowchat4win.Voting.Election.{forget_room}
use cowchat4win.Voting.Ballots.{AllFair, Fair, with_ballot}
use cowchat4win.Voting.Calls.{
  VoteCall, opens, records, closes, expires, forgets, vote_step, vote_run, record_ballot-cases,
  close_active-none, close_active-some, vote_step-AllFair,
}

-- How many effects close the vote in the store.
abbrev pub closings : String → List Effect → ℕ
closings id [] = 0
closings id (close_vote v ∷ es) = (if v == id then 1 else 0) + closings id es
closings id (broadcast room f ∷ es) = closings id es

abbrev is_result : FrameType → Bool
is_result t = elim t [ FrameType.vote_result ↦ true | _ ↦ false ]

-- The `vote_id` that a payload carries.
abbrev names_vote : String → Json → Bool
names_vote id payload = elim (get "vote_id" payload) [ some (text v) ↦ v == id | _ ↦ false ]

-- How many frames send the result of the vote to a room.
abbrev pub announced : String → List Effect → ℕ
announced id [] = 0
announced id (close_vote v ∷ es) = announced id es
announced id (broadcast room f ∷ es) =
    (if is_result f.frame_type && names_vote id f.payload then 1 else 0) + announced id es

abbrev pub open_count : String → VoteManager → ℕ
open_count id m = if is_some (lookup id m.active_votes) then 1 else 0

-- No call opens a vote of this id: ids are fresh UUIDs.
abbrev pub NotOpened : String → List VoteCall → Type 0
NotOpened id [] = Unit
NotOpened id (opens now v room title about options by secs agents ∷ cs) =
    ((v == id) ≡ false) × NotOpened id cs
NotOpened id (records v agent name i ∷ cs) = NotOpened id cs
NotOpened id (closes should v ∷ cs) = NotOpened id cs
NotOpened id (expires v ∷ cs) = NotOpened id cs
NotOpened id (forgets room ∷ cs) = NotOpened id cs

closings-append :
    (id : String) (es fs : List Effect) → closings id (es ++ fs) ≡ closings id es + closings id fs
closings-append id [] fs = omega arith
closings-append id (close_vote v ∷ es) fs = ground (arith, closings-append id es fs)
closings-append id (broadcast room f ∷ es) fs = closings-append id es fs

announced-append :
    (id : String) (es fs : List Effect)
    → announced id (es ++ fs) ≡ announced id es + announced id fs
announced-append id [] fs = omega arith
announced-append id (close_vote v ∷ es) fs = announced-append id es fs
announced-append id (broadcast room f ∷ es) fs = ground (arith, announced-append id es fs)

-- What is announced and what is still open after a call, and what is closed in the store.
abbrev left : String → List Effect × VoteManager → ℕ
left id r = announced id r.0 + open_count id r.1

abbrev Paired : String → List Effect → Type 0
Paired id es = announced id es ≡ closings id es

announced-close_and_broadcast_vote :
    (id : String) (w : ActiveVote)
    → (announced id (close_and_broadcast_vote w) ≡ (if w.vote_id == id then 1 else 0))
      × Paired id (close_and_broadcast_vote w)
unfolding close_and_broadcast_vote result_value vote_result get
announced-close_and_broadcast_vote id w = (ground arith, ground arith)

left-close_active :
    (id v : String) (m : VoteManager)
    → AllFair m.active_votes
    → (left id (close_active v m) ≤ open_count id m) × Paired id (close_active v m).0
left-close_active id v m h = elim (Option-cases (lookup v m.active_votes)) [
  | inl e ↦
      subst (λ r. (left id r ≤ open_count id m) × Paired id r.0) (sym (close_active-none v m e))
        (omega arith, refl)
  | inr (w, e) ↦
      let own : w.vote_id ≡ v = (lookup-All Fair v w m.active_votes h e).0 in
      let (count, pair) = announced-close_and_broadcast_vote id w in
      subst (λ r. (left id r ≤ open_count id m) × Paired id r.0) (sym (close_active-some v m w e))
        (
          ground (
            arith,
            count,
            own,
            e,
            eq_iff v id,
            eq_iff w.vote_id id,
            lookup-remove v id m.active_votes,
          ),
          pair,
        )
]

left-record_ballot :
    (id v agent name : String) (i : ℕ) (m : VoteManager)
    → open_count id (record_ballot v agent name i m).1 ≡ open_count id m
left-record_ballot id v agent name i m = elim (record_ballot-cases v agent name i m) [
  | inl e ↦ ap (open_count id) e
  | inr (w, e, c, r) ↦
      ap (open_count id) r
      ∙ ground (
        arith,
        e,
        eq_iff v id,
        lookup-insert v id
            (with_ballot w (record { agent_id = agent; agent_name = name; option_index = i }))
            m.active_votes,
      )
]

left-forget_room :
    (id room : String) (m : VoteManager) → open_count id (forget_room room m) ≤ open_count id m
unfolding forget_room
left-forget_room id room m = ground (
  arith,
  lookup-retain_values-none (λ (v : ActiveVote). not (v.room_id == room)) id m.active_votes,
)

left-vote_step :
    (id : String) (m : VoteManager) (c : VoteCall) (cs : List VoteCall)
    → AllFair m.active_votes
    → NotOpened id (c ∷ cs)
    → (left id (vote_step m c) ≤ open_count id m) × Paired id (vote_step m c).0 × NotOpened id cs
unfolding create_vote deadline close_if
left-vote_step id m (opens now v room title about options by secs agents) cs h (n, rest) = (
  ground (
    arith,
    n,
    lookup-insert v id (create_vote now v room title about options by secs agents m).0
        m.active_votes,
  ),
  refl,
  rest,
)
left-vote_step id m (records v agent name i) cs h n =
    (omega (arith, left-record_ballot id v agent name i m), refl, n)
left-vote_step id m (closes true v) cs h n =
    let (bound, pair) = left-close_active id v m h in (bound, pair, n)
left-vote_step id m (closes false v) cs h n = (omega arith, refl, n)
left-vote_step id m (expires v) cs h n =
    let (bound, pair) = left-close_active id v m h in (bound, pair, n)
left-vote_step id m (forgets room) cs h n = (omega (arith, left-forget_room id room m), refl, n)

-- From a state of fair votes, over any calls of which none opens the vote: its result is sent to a
-- room as often as the vote is closed in the store, which is once at most, only if the vote was
-- open, and it is not open any more when that happened.
pub announced_once :
    (id : String) (m : VoteManager) (cs : List VoteCall)
    → AllFair m.active_votes
    → NotOpened id cs
    → (announced id (vote_run m cs).0 + open_count id (vote_run m cs).1 ≤ open_count id m)
      × (announced id (vote_run m cs).0 ≡ closings id (vote_run m cs).0)
announced_once id m [] h n = (omega arith, refl)
announced_once id m (c ∷ cs) h n =
    let (bound, pair, rest) = left-vote_step id m c cs h n in
    let (more, pairs) = announced_once id (vote_step m c).1 cs (vote_step-AllFair m c h) rest in
    let es = (vote_step m c).0 in
    let fs = (vote_run (vote_step m c).1 cs).0 in
    (
      omega (arith, bound, announced-append id es fs, more),
      omega (arith, pair, pairs, announced-append id es fs, closings-append id es fs),
    )
