-- ===== src/Store/Votes/Final.antt =====
-- A vote that is closed in the store.
use cowchat4win.Base.{
  ℕ, String, ◌≡◌, refl, sym, ap, ◌∙◌, false, not, Option, some, List, [], ◌∷◌, ◌++◌, ◌==◌, arith,
  eq_iff, any, map, retain, err, Bool-cases, Option-cases, inl, inr,
}
use cowchat4win.Base.Tables.{find_row, update_where, order_by}
use cowchat4win.Store.{Store, VoteMeta, BallotRow, vote_closed}
use cowchat4win.Store.Votes.{
  has_vote_id, is_ballot_of, is_ballot_by, is_eligible_row, all_distinct, create_vote, cast_vote,
  close_vote, get_vote_ballots, get_vote_meta, ballot_entry, by_cast,
}

pub data VoteCall : Type 0 where
  creates :
      ℕ
      → String
      → String
      → String
      → Option String
      → List String
      → String
      → Option ℕ
      → List String
      → VoteCall
  casts : ℕ → String → String → String → ℕ → VoteCall
  closes : String → VoteCall

abbrev pub vote_step : Store → VoteCall → Store
vote_step s (creates now id room title about options by closes_at agents) =
    (create_vote now id room title about options by closes_at agents s).1
vote_step s (casts now id agent name option) = (cast_vote now id agent name option s).1
vote_step s (closes id) = close_vote id s

abbrev pub vote_run : Store → List VoteCall → Store
vote_run s [] = s
vote_run s (c ∷ cs) = vote_run (vote_step s c) cs

-- The vote of that id is there and not open.
record IsClosed (id : String) (s : Store) : Type 0 where
  row : VoteMeta
  found : find_row (has_vote_id id) s.votes ≡ some row
  shut : (row.status == "open") ≡ false

find_row-append :
    (id : String) (v : VoteMeta) (rs : List VoteMeta) (more : List VoteMeta)
    → find_row (has_vote_id id) rs ≡ some v
    → find_row (has_vote_id id) (rs ++ more) ≡ some v
unfolding find_row
find_row-append id v [] more h = cc
find_row-append id v (r ∷ rs) more h = ground (arith, h, find_row-append id v rs more)

shut_row :
    (id other : String) (v : VoteMeta) (rs : List VoteMeta)
    → find_row (has_vote_id id) rs ≡ some v
    → (v.status == "open") ≡ false
    → (w : VoteMeta) × (find_row
          (has_vote_id id)
          (update_where (has_vote_id other) (λ (r : VoteMeta). record r { status = "closed" }) rs)
        ≡ some w)
      × ((w.status == "open") ≡ false)
unfolding find_row update_where
shut_row id other v [] h c = cc
shut_row id other v (r ∷ rs) h c = elim (Bool-cases (has_vote_id other r)) [
  | inl o ↦ elim (Bool-cases (has_vote_id id r)) [
    | inl e ↦ rw (o, e) (record r { status = "closed" }, refl, refl)
    | inr e ↦ rw (o, e) (shut_row id other v rs (ground (arith, h, e)) c)
  ]
  | inr o ↦ elim (Bool-cases (has_vote_id id r)) [
    | inl e ↦ rw (o, e) (v, ground (arith, h, e), c)
    | inr e ↦ rw (o, e) (shut_row id other v rs (ground (arith, h, e)) c)
  ]
]

retain-append :
    (id : String) (b : BallotRow) (rs : List BallotRow)
    → is_ballot_of id b ≡ false
    → retain (is_ballot_of id) (rs ++ b ∷ []) ≡ retain (is_ballot_of id) rs
retain-append id b [] h = rw h refl
retain-append id b (r ∷ rs) h = elim (Bool-cases (is_ballot_of id r)) [
  | inl e ↦ rw e (ap (λ l. r ∷ l) (retain-append id b rs h))
  | inr e ↦ rw e (retain-append id b rs h)
]

-- What a call leaves of a closed vote.
record Kept (id : String) (s s' : Store) : Type 0 where
  closed : IsClosed id s'
  ballots : retain (is_ballot_of id) s'.ballots ≡ retain (is_ballot_of id) s.ballots

create_vote-Kept :
    (k : String) (now : ℕ) (id room title : String) (about : Option String) (options : List String)
    (by : String) (closes_at : Option ℕ) (agents : List String) (s : Store)
    → IsClosed k s
    → Kept k s (create_vote now id room title about options by closes_at agents s).1
unfolding create_vote
create_vote-Kept k now id room title about options by closes_at agents s c =
    elim (Bool-cases (any (has_vote_id id) s.votes)) [
      | inl a ↦ rw (a, create_vote) (record { closed = c; ballots = refl })
      | inr a ↦ elim (Bool-cases (any (is_eligible_row id) s.eligible)) [
        | inl b ↦ rw (a, b, create_vote) (record { closed = c; ballots = refl })
        | inr b ↦ elim (Bool-cases (not (all_distinct agents))) [
          | inl d ↦ rw (a, b, d, create_vote) (record { closed = c; ballots = refl })
          | inr d ↦
              rw (a, b, d, create_vote)
                (record {
                  closed = record {
                    row = c.row;
                    found = find_row-append k c.row s.votes _ c.found;
                    shut = c.shut;
                  };
                  ballots = refl;
                })
        ]
      ]
    ]

cast_vote-Kept :
    (k : String) (now : ℕ) (id agent name : String) (option : ℕ) (s : Store)
    → IsClosed k s
    → Kept k s (cast_vote now id agent name option s).1
unfolding cast_vote
cast_vote-Kept k now id agent name option s c =
    elim (Option-cases (find_row (has_vote_id id) s.votes)) [
      | inl e ↦ rw (e, cast_vote) (record { closed = c; ballots = refl })
      | inr (v, e) ↦ elim (Bool-cases (not (v.status == "open"))) [
        | inl o ↦ rw (e, o, cast_vote) (record { closed = c; ballots = refl })
        | inr o ↦ elim (Bool-cases (any (is_ballot_by id agent) s.ballots)) [
          | inl d ↦ rw (e, o, d, cast_vote) (record { closed = c; ballots = refl })
          | inr d ↦ elim (Bool-cases (id == k)) [
            | inl same ↦
                let eq : id ≡ k = (eq_iff id k).0 same in
                let both : some v ≡ some c.row =
                  sym e ∙ ap (λ i. find_row (has_vote_id i) s.votes) eq ∙ c.found in
                let row : v ≡ c.row = cc in
                let shut : (v.status == "open") ≡ false =
                  ap (λ (x : VoteMeta). x.status == "open") row ∙ c.shut in
                let no_way : ⊥ = ground (arith, o, shut) in elim no_way [ ]
            | inr other ↦
                rw (e, o, d, cast_vote)
                  (record {
                    closed = record { row = c.row; found = c.found; shut = c.shut };
                    ballots = retain-append k _ s.ballots other;
                  })
          ]
        ]
      ]
    ]

close_vote-Kept : (k id : String) (s : Store) → IsClosed k s → Kept k s (close_vote id s)
unfolding close_vote
close_vote-Kept k id s c =
    let (w, found, shut) = shut_row k id c.row s.votes c.found c.shut in
    record { closed = record { row = w; found = found; shut = shut }; ballots = refl }

vote_step-Kept : (k : String) (s : Store) (c : VoteCall) → IsClosed k s → Kept k s (vote_step s c)
vote_step-Kept k s (creates now id room title about options by closes_at agents) h =
    create_vote-Kept k now id room title about options by closes_at agents s h
vote_step-Kept k s (casts now id agent name option) h =
    cast_vote-Kept k now id agent name option s h
vote_step-Kept k s (closes id) h = close_vote-Kept k id s h

vote_run-Kept :
    (k : String) (s : Store) (cs : List VoteCall) → IsClosed k s → Kept k s (vote_run s cs)
vote_run-Kept k s [] h = record { closed = h; ballots = refl }
vote_run-Kept k s (c ∷ cs) h =
    let one = vote_step-Kept k s c h in
    let rest = vote_run-Kept k (vote_step s c) cs one.closed in
    record { closed = rest.closed; ballots = rest.ballots ∙ one.ballots }

first_shut :
    (id : String) (v : VoteMeta) (rs : List VoteMeta)
    → find_row (has_vote_id id) rs ≡ some v
    → (w : VoteMeta) × (find_row
          (has_vote_id id)
          (update_where (has_vote_id id) (λ (r : VoteMeta). record r { status = "closed" }) rs)
        ≡ some w)
      × ((w.status == "open") ≡ false)
unfolding find_row update_where
first_shut id v [] h = cc
first_shut id v (r ∷ rs) h = elim (Bool-cases (has_vote_id id r)) [
  | inl e ↦ (record r { status = "closed" }, ground (arith, e), refl)
  | inr e ↦
      let (w, found, shut) = first_shut id v rs (ground (arith, h, e)) in
      (w, ground (arith, e, found), shut)
]

close_vote-IsClosed :
    (k : String) (s : Store) (v : VoteMeta)
    → find_row (has_vote_id k) s.votes ≡ some v
    → IsClosed k (close_vote k s)
unfolding close_vote
close_vote-IsClosed k s v h =
    let (w, found, shut) = first_shut k v s.votes h in
    record { row = w; found = found; shut = shut }

refused :
    (k : String) (now : ℕ) (agent name : String) (option : ℕ) (s : Store)
    → IsClosed k s
    → (cast_vote now k agent name option s).0 ≡ err vote_closed
unfolding cast_vote
refused k now agent name option s c = rw (c.found, c.shut, cast_vote) refl

-- Once a stored vote was closed, whatever creations, ballots and closings follow, its ballots are
-- the ones it had, and a further ballot of it is refused.
pub closed_vote_is_final :
    (k : String) (s : Store) (v : VoteMeta) (cs : List VoteCall) (now : ℕ) (agent name : String)
    (option : ℕ)
    → get_vote_meta k s ≡ some v
    → (get_vote_ballots k (vote_run (close_vote k s) cs) ≡ get_vote_ballots k s)
      × ((cast_vote now k agent name option (vote_run (close_vote k s) cs)).0 ≡ err vote_closed)
unfolding get_vote_meta get_vote_ballots close_vote
closed_vote_is_final k s v cs now agent name option h =
    let kept = vote_run-Kept k (close_vote k s) cs (close_vote-IsClosed k s v h) in
    (
      ap (λ l. map ballot_entry (order_by by_cast l)) kept.ballots,
      refused k now agent name option (vote_run (close_vote k s) cs) kept.closed,
    )
