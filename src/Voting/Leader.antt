-- ===== src/Voting/Leader.antt =====
-- Who becomes leader of a room, and when a room has none.
use cowchat4win.Base.{
  String, ◌≡◌, ◌≢◌, refl, sym, ap, subst, Bool, true, false, not, ◌||◌, Option, none, some, List,
  [], ◌∷◌, ◌∙◌, arith, ◌==◌, eq_iff, eq_refl, retain, contains, unwrap_or, Bool-cases, List-cases,
  inl, inr,
}
use cowchat4win.Base.Dict.{lookup, insert, remove, lookup-insert, lookup-remove}
use cowchat4win.Voting.{VoteManager, ActiveElection, Effect}
use cowchat4win.Voting.Election.{
  start_election, cleared, elected, remaining, Chooser, elect, finish_election, set_insert,
  decline_election, get_leader,
}

contains-retain :
    (p : String → Bool) (a : String) (xs : List String)
    → contains a (retain p xs) ≡ true
    → (contains a xs ≡ true) × (p a ≡ true)
contains-retain p a [] h = cc
contains-retain p a (x ∷ xs) h = elim (Bool-cases (x == a)) [
  | inl e ↦ elim (Bool-cases (p x)) [
    | inl t ↦ (ground (arith, e), ground (arith, t, eq_iff x a, e))
    | inr f ↦ let (i, q) = contains-retain p a xs (ground (arith, f, h)) in (ground (arith, e), q)
  ]
  | inr n ↦ let (i, q) = contains-retain p a xs (ground (arith, n, h)) in (ground (arith, n, i), q)
]

-- A leader of the room, one of the candidates, that did not decline.
pub record Winner (e : ActiveElection) (leader_id : String) : Type 0 where
  pub stood : contains leader_id e.candidates ≡ true
  pub willing : contains leader_id e.declined ≡ false

remaining_win : (e : ActiveElection) (w : String) → contains w (remaining e) ≡ true → Winner e w
unfolding remaining
remaining_win e w h =
    let (i, q) = contains-retain (λ c. not (contains c e.declined)) w e.candidates h in
    record { stood = i; willing = ground (arith, q) }

module _ (chooser : Chooser) (room_id : String) (name_of : String → Option String) where
  -- When an election ends in a room that is there, and somebody is left to elect, one candidate that
  -- did not decline is leader, the room is told of it and of nothing else, and the election is over.
  pub finish_election-elects :
      (m : VoteManager) (e : ActiveElection)
      → lookup room_id m.active_elections ≡ some e
      → remaining e ≢ []
      → let (effects, after) = finish_election chooser room_id false false name_of m in
        (w : String) × Winner e w
        × (get_leader room_id after ≡ some w)
        × (effects ≡ elected room_id w (unwrap_or (name_of w) w) ∷ [])
        × (lookup room_id after.active_elections ≡ none)
  unfolding finish_election elect get_leader
  finish_election-elects m e there left = elim (List-cases (remaining e)) [
    | inl none_left ↦ absurd (left none_left)
    | inr (c, cs, eq) ↦
        let w : String = chooser.choose c cs in
        (
          w,
          remaining_win e w
              (subst (λ xs. contains w xs ≡ true) (sym eq) (chooser.choose-contains c cs)),
          rw (there, eq, finish_election, elect)
              (ground (arith, eq_refl room_id, lookup-insert room_id room_id w m.room_leaders)),
          rw (there, eq, finish_election, elect) refl,
          rw (there, eq, finish_election, elect)
              (ground (arith, eq_refl room_id, lookup-remove room_id room_id m.active_elections)),
        )
  ]

-- A list of agents declines, one after the other.
abbrev pub decline_all : String → List String → VoteManager → VoteManager
decline_all room_id [] m = m
decline_all room_id (a ∷ as') m = decline_all room_id as' (decline_election room_id a m).1

contains-set_insert :
    (a b : String) (xs : List String) → contains b (set_insert a xs) ≡ (a == b || contains b xs)
unfolding set_insert
contains-set_insert a b xs = ground (arith, eq_iff a b)

decline_election-active :
    (room_id a : String) (m : VoteManager) (e : ActiveElection)
    → lookup room_id m.active_elections ≡ some e
    → (decline_election room_id a m).1 ≡ record m {
      active_elections =
          insert room_id (record e { declined = set_insert a e.declined }) m.active_elections;
    }
unfolding decline_election
decline_election-active room_id a m e there = rw (there, decline_election) refl

-- The election after the agents of the list have declined.
record Declined (e : ActiveElection) (agents : List String) (e' : ActiveElection) : Type 0 where
  same : e'.candidates ≡ e.candidates
  all :
      (a : String)
      → (contains a agents || contains a e.declined) ≡ true
      → contains a e'.declined ≡ true

decline_all-Declined :
    (room_id : String) (agents : List String) (m : VoteManager) (e : ActiveElection)
    → lookup room_id m.active_elections ≡ some e
    → let after = decline_all room_id agents m in
      (e' : ActiveElection) × (lookup room_id after.active_elections ≡ some e')
      × Declined e agents e'
      × (after.room_leaders ≡ m.room_leaders)
decline_all-Declined room_id [] m e there = (e, there, record { same = refl; all = λ a h. h }, refl)
decline_all-Declined room_id (x ∷ agents) m e there =
    let e₁ : ActiveElection = record e { declined = set_insert x e.declined } in
    let m₁ : VoteManager = record m { active_elections = insert room_id e₁ m.active_elections } in
    let step : (decline_election room_id x m).1 ≡ m₁ =
      decline_election-active room_id x m e there in
    let now_there : lookup room_id m₁.active_elections ≡ some e₁ =
      ground (arith, eq_refl room_id, lookup-insert room_id room_id e₁ m.active_elections) in
    let (e', found, d, leaders) = decline_all-Declined room_id agents m₁ e₁ now_there in
    (
      e',
      ap (λ (n : VoteManager). lookup room_id (decline_all room_id agents n).active_elections) step
          ∙ found,
      record {
        same = d.same;
        all = λ a h. d.all a (ground (arith, h, eq_iff x a, contains-set_insert x a e.declined));
      },
      ap (λ (n : VoteManager). (decline_all room_id agents n).room_leaders) step ∙ leaders,
    )

retain-none :
    (p : String → Bool) (xs : List String)
    → ((a : String) → contains a xs ≡ true → p a ≡ false)
    → retain p xs ≡ []
retain-none p [] h = refl
retain-none p (x ∷ xs) h =
    let here : p x ≡ false = h x (ground (arith, eq_refl x)) in
    let rest : retain p xs ≡ [] = retain-none p xs (λ a i. h a (ground (arith, i))) in
    ground (arith, here, rest)

start_election-fresh :
    (room_id : String) (candidates : List String) (by : String) (m : VoteManager)
    → lookup room_id m.active_elections ≡ none
    → (start_election room_id candidates by m).1 ≡ record m {
      active_elections =
          insert room_id
            (record { room_id = room_id; candidates = candidates; declined = []; started_by = by })
            m.active_elections;
    }
unfolding start_election
start_election-fresh room_id candidates by m none_yet = rw (none_yet, start_election) refl

finish_election-empty :
    (chooser : Chooser) (room_id : String) (name_of : String → Option String) (m : VoteManager)
    (e : ActiveElection)
    → lookup room_id m.active_elections ≡ some e
    → remaining e ≡ []
    → finish_election chooser room_id false false name_of m ≡ (
      cleared room_id "all candidates declined" ∷ [],
      record m { active_elections = remove room_id m.active_elections },
    )
unfolding finish_election elect
finish_election-empty chooser room_id name_of m e there nobody =
    rw (there, nobody, finish_election, elect) refl

-- When every candidate of an election that was started declines, the room is told that it has no
-- leader, while the leader it had before stays recorded.
pub all_declined_keeps_leader :
    (chooser : Chooser) (room_id : String) (name_of : String → Option String)
    (candidates : List String) (by : String) (m : VoteManager)
    → lookup room_id m.active_elections ≡ none
    → let declined = decline_all room_id candidates (start_election room_id candidates by m).1 in
      let (effects, after) = finish_election chooser room_id false false name_of declined in
      (effects ≡ cleared room_id "all candidates declined" ∷ [])
      × (get_leader room_id after ≡ get_leader room_id m)
unfolding remaining get_leader
all_declined_keeps_leader chooser room_id name_of candidates by m none_yet =
    let e : ActiveElection = record {
      room_id = room_id;
      candidates = candidates;
      declined = [];
      started_by = by;
    } in
    let m₁ : VoteManager = (start_election room_id candidates by m).1 in
    let started : m₁ ≡ record m { active_elections = insert room_id e m.active_elections } =
      start_election-fresh room_id candidates by m none_yet in
    let there : lookup room_id m₁.active_elections ≡ some e =
      ap (λ (n : VoteManager). lookup room_id n.active_elections) started
      ∙ ground (arith, eq_refl room_id, lookup-insert room_id room_id e m.active_elections) in
    let (e', found, d, leaders) = decline_all-Declined room_id candidates m₁ e there in
    let nobody : remaining e' ≡ [] =
      retain-none (λ c. not (contains c e'.declined)) e'.candidates
        (λ a i.
          let stood : contains a candidates ≡ true = ap (λ xs. contains a xs) (sym d.same) ∙ i in
          ap not (d.all a (ground (arith, stood)))) in
    let done =
      finish_election-empty chooser room_id name_of (decline_all room_id candidates m₁) e' found
        nobody in
    (
      ap (λ (r : List Effect × VoteManager). r.0) done,
      ap (λ (r : List Effect × VoteManager). lookup room_id r.1.room_leaders) done
          ∙ ap (lookup room_id) leaders
          ∙ ap (λ (n : VoteManager). lookup room_id n.room_leaders) started,
    )
