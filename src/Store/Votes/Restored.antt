-- ===== src/Store/Votes/Restored.antt =====
-- The vote manager that VoteManager::new makes of the store.
use cowchat4win.Base.{
  String, ◌≡◌, refl, sym, ap, ◌∙◌, true, false, Option, none, some, List, [], ◌∷◌, arith, eq_iff,
  if◌then◌else◌, any, retain, map, leb, ◌==◌, Bool-cases, Option-cases, inl, inr,
}
use cowchat4win.Base.Dict.{Dict, lookup, insert, lookup-insert}
use cowchat4win.Base.Tables.{find_row, insert_ordered, order_by, any-order_by}
use cowchat4win.Voting.{ActiveVote}
use cowchat4win.Store.{Store, VoteMeta, BallotRow}
use cowchat4win.Store.Votes.{
  has_vote_id, is_open, oldest_first, list_open_votes, restored_vote, insert_votes, new,
  get_vote_meta, get_vote_ballots, get_vote_eligible_agents, by_text,
}

-- Each id stands once, as the primary key has it.
abbrev pub Keyed : List VoteMeta → Type 0
Keyed [] = Unit
Keyed (v ∷ vs) = (any (has_vote_id v.vote_id) vs ≡ false) × Keyed vs

-- The rows of that id, all of which are the one row, if there is one.
abbrev Only : String → Option VoteMeta → List VoteMeta → Type 0
Only id found [] = Unit
Only id found (v ∷ vs) = (has_vote_id id v ≡ true → found ≡ some v) × Only id found vs

insert_ordered-Only :
    (id : String) (found : Option VoteMeta) (v : VoteMeta) (vs : List VoteMeta)
    → (has_vote_id id v ≡ true → found ≡ some v)
    → Only id found vs
    → Only id found (insert_ordered oldest_first v vs)
unfolding insert_ordered
insert_ordered-Only id found v [] h o = (h, tt)
insert_ordered-Only id found v (w ∷ ws) h (g, o) = elim (Bool-cases (oldest_first v w)) [
  | inl e ↦ rw e (h, (g, o))
  | inr e ↦ rw e (g, insert_ordered-Only id found v ws h o)
]

order_by-Only :
    (id : String) (found : Option VoteMeta) (vs : List VoteMeta)
    → Only id found vs
    → Only id found (order_by oldest_first vs)
unfolding order_by
order_by-Only id found [] o = tt
order_by-Only id found (v ∷ vs) (h, o) =
    insert_ordered-Only id found v (order_by oldest_first vs) h (order_by-Only id found vs o)

-- Where all rows of an id are the one row, it is what the id stands for after the loop.
lookup-insert_votes :
    (id : String) (v : VoteMeta) (s : Store) (vs : List VoteMeta) (m : Dict ActiveVote)
    → Only id (some v) vs
    → lookup id (insert_votes vs s m)
      ≡ (if any (has_vote_id id) vs then some (restored_vote v s) else lookup id m)
unfolding insert_votes
lookup-insert_votes id v s [] m o = refl
lookup-insert_votes id v s (w ∷ ws) m (h, o) =
    let ih = lookup-insert_votes id v s ws (insert w.vote_id (restored_vote w s) m) o in
    let put = lookup-insert w.vote_id id (restored_vote w s) m in
    elim (Bool-cases (has_vote_id id w)) [
      | inl e ↦
          let both : some v ≡ some w = h e in
          let same : v ≡ w = cc in ground (arith, e, ih, put, ap (λ x. restored_vote x s) same)
      | inr e ↦ ground (arith, e, ih, put)
    ]

lookup-insert_votes-none :
    (id : String) (s : Store) (vs : List VoteMeta) (m : Dict ActiveVote)
    → any (has_vote_id id) vs ≡ false
    → lookup id (insert_votes vs s m) ≡ lookup id m
unfolding insert_votes
lookup-insert_votes-none id s [] m o = refl
lookup-insert_votes-none id s (w ∷ ws) m o = ground (
  arith,
  o,
  lookup-insert w.vote_id id (restored_vote w s) m,
  lookup-insert_votes-none id s ws (insert w.vote_id (restored_vote w s) m) (ground (arith, o)),
)

absent-Only :
    (id : String) (found : Option VoteMeta) (vs : List VoteMeta)
    → any (has_vote_id id) vs ≡ false
    → Only id found (retain is_open vs)
absent-Only id found [] h = tt
absent-Only id found (v ∷ vs) h = elim (Bool-cases (is_open v)) [
  | inl e ↦ rw e ((λ y. ground (arith, h, y)), absent-Only id found vs (ground (arith, h)))
  | inr e ↦ rw e (absent-Only id found vs (ground (arith, h)))
]

stored-Only :
    (id : String) (v : VoteMeta) (vs : List VoteMeta)
    → Keyed vs
    → find_row (has_vote_id id) vs ≡ some v
    → Only id (some v) (retain is_open vs)
unfolding find_row
stored-Only id v [] k h = tt
stored-Only id v (w ∷ ws) (k, ks) h = elim (Bool-cases (has_vote_id id w)) [
  | inl e ↦
      let name : w.vote_id ≡ id = (eq_iff w.vote_id id).0 e in
      let rest = absent-Only id (some v) ws (ap (λ i. any (has_vote_id i) ws) (sym name) ∙ k) in
      elim (Bool-cases (is_open w)) [
        | inl o ↦ rw o ((λ y. sym h ∙ rw e refl), rest)
        | inr o ↦ rw o rest
      ]
  | inr e ↦
      let rest = stored-Only id v ws ks (ground (arith, e, h)) in
      elim (Bool-cases (is_open w)) [
        | inl o ↦ rw o ((λ y. ground (arith, e, y)), rest)
        | inr o ↦ rw o rest
      ]
]

absent_open :
    (id : String) (vs : List VoteMeta)
    → any (has_vote_id id) vs ≡ false
    → any (has_vote_id id) (retain is_open vs) ≡ false
absent_open id [] h = refl
absent_open id (v ∷ vs) h = ground (arith, h, absent_open id vs (ground (arith, h)))

absent_row :
    (id : String) (vs : List VoteMeta)
    → find_row (has_vote_id id) vs ≡ none
    → any (has_vote_id id) vs ≡ false
unfolding find_row
absent_row id [] h = refl
absent_row id (v ∷ vs) h = ground (arith, h, absent_row id vs (ground (arith, h)))

any-open :
    (id : String) (v : VoteMeta) (vs : List VoteMeta)
    → Keyed vs
    → find_row (has_vote_id id) vs ≡ some v
    → any (has_vote_id id) (retain is_open vs) ≡ is_open v
unfolding find_row
any-open id v [] k h = cc
any-open id v (w ∷ ws) (k, ks) h = elim (Bool-cases (has_vote_id id w)) [
  | inl e ↦
      let name : w.vote_id ≡ id = (eq_iff w.vote_id id).0 e in
      let none_left = absent_open id ws (ap (λ i. any (has_vote_id i) ws) (sym name) ∙ k) in
      let both : some w ≡ some v = ground (arith, e, h) in
      let same : w ≡ v = cc in ground (arith, e, none_left, ap is_open same)
  | inr e ↦ ground (arith, e, any-open id v ws ks (ground (arith, e, h)))
]

-- What the tables say of a vote: its own row, its ballots in the order in which they were cast, and
-- its eligible agents by name.
abbrev pub stored_vote : Store → VoteMeta → ActiveVote
stored_vote s v = record {
  vote_id = v.vote_id;
  room_id = v.room_id;
  title = v.title;
  description = v.description;
  options = v.options;
  created_by = v.created_by;
  created_at = v.created_at;
  closes_at = v.closes_at;
  ballots =
      map
        (λ (b : BallotRow). record {
          agent_id = b.agent_id;
          agent_name = b.agent_name;
          option_index = b.option_index;
        })
        (order_by (λ (a b : BallotRow). leb a.cast_at b.cast_at)
          (retain (λ (b : BallotRow). b.vote_id == v.vote_id) s.ballots));
  eligible_voters = v.eligible_voters;
  eligible_agents = order_by by_text (
      map (λ (e : String × String). e.1)
        (retain (λ (e : String × String). e.0 == v.vote_id) s.eligible));
}

-- The vote that a restart is to find under an id: the stored one, if it is open.
abbrev pub expected : Store → Option VoteMeta → Option ActiveVote
expected s none = none
expected s (some v) = if v.status == "open" then some (stored_vote s v) else none

restored_vote-stored_vote : (v : VoteMeta) (s : Store) → restored_vote v s ≡ stored_vote s v
unfolding restored_vote get_vote_ballots get_vote_eligible_agents
restored_vote-stored_vote v s = refl

-- Where each stored vote has its own id, a vote manager made of the store holds under each id the
-- open vote of that id, with its stored ballots, the earliest first, and its stored eligible agents,
-- and holds no other vote.
pub restored_votes :
    (id : String) (s : Store)
    → Keyed s.votes
    → lookup id (new s).active_votes ≡ expected s (get_vote_meta id s)
unfolding new list_open_votes get_vote_meta lookup
restored_votes id s k = elim (Option-cases (find_row (has_vote_id id) s.votes)) [
  | inl e ↦ rw e (
      lookup-insert_votes-none id s (list_open_votes s) [] (
        any-order_by (has_vote_id id) oldest_first (retain is_open s.votes)
        ∙ absent_open id s.votes (absent_row id s.votes e)))
  | inr (v, e) ↦ rw e (
      lookup-insert_votes id v s (list_open_votes s) []
        (order_by-Only id (some v) (retain is_open s.votes) (stored-Only id v s.votes k e))
      ∙ ap (λ b. if b then some (restored_vote v s) else none)
          (any-order_by (has_vote_id id) oldest_first (retain is_open s.votes)
            ∙ any-open id v s.votes k e)
      ∙ ap (λ w. if is_open v then some w else none) (restored_vote-stored_vote v s))
]
