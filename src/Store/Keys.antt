-- ===== src/Store/Keys.antt =====
-- API keys, agent identities and sessions of crates/cowchat-server/src/store.rs.
use cowchat4win.Base.{
  ℕ, String, ◌≡◌, refl, ap, ◌∙◌, Bool, true, Option, none, some, List, [], ◌∷◌, ◌==◌, arith, eq_iff,
  eq_refl, if◌then◌else◌, Option-cases, inl, inr,
}
use cowchat4win.Base.Dict.{lookup, insert, contains_key, lookup-insert}
use cowchat4win.Base.{Result, ok, err}
use cowchat4win.Store.{Store, SessionRow, StoreError, db, to_millis}

unfoldable pub create_api_key :
    ℕ → String → Option String → Store → Result (Unit {0}) StoreError × Store
create_api_key now api_key label s = if contains_key api_key s.api_keys then (err db, s) else (
  ok tt,
  record s {
    api_keys =
        insert api_key (record { tier = "free"; label = label; created_at = to_millis now })
          s.api_keys;
  },
)

unfoldable pub validate_api_key : String → Store → Bool
validate_api_key api_key s = contains_key api_key s.api_keys

unfoldable pub get_key_tier : String → Store → Result String StoreError
get_key_tier api_key s = elim (lookup api_key s.api_keys) [ none ↦ err db | some row ↦ ok row.tier ]

unfoldable pub record_session_start :
    ℕ → String → String → String → List String → Store → Result (Unit {0}) StoreError × Store
record_session_start now session_id agent_id agent_name capabilities s =
    if contains_key session_id s.sessions
    then (err db, s)
    else let row : SessionRow = record {
      session_id = session_id;
      agent_id = agent_id;
      agent_name = agent_name;
      capabilities = capabilities;
      connected_at = to_millis now;
      disconnected_at = none;
    } in
      (ok tt, record s { sessions = insert session_id row s.sessions })

unfoldable pub record_session_end : ℕ → String → Store → Store
record_session_end now session_id s = elim (lookup session_id s.sessions) [
  | none ↦ s
  | some row ↦ record s {
    sessions = insert session_id (record row { disconnected_at = some (to_millis now) }) s.sessions;
  }
]

-- `INSERT OR IGNORE`, and the key that is stored then.
unfoldable pub claim_agent_identity : String → String → Store → Bool × Store
claim_agent_identity agent_id owner_key s = elim (lookup agent_id s.identities) [
  | some stored ↦ (stored == owner_key, s)
  | none ↦ (true, record s { identities = insert agent_id owner_key s.identities })
]

-- The claims of agents, in order, each with its key.
abbrev pub claim_all : List (String × String) → Store → Store
claim_all [] s = s
claim_all ((agent_id, key) ∷ cs) s = claim_all cs (claim_agent_identity agent_id key s).1

claimed :
    (agent key other : String) (claimer : String) (s : Store)
    → lookup agent s.identities ≡ some key
    → lookup agent (claim_agent_identity other claimer s).1.identities ≡ some key
unfolding claim_agent_identity
claimed agent key other claimer s h = elim (Option-cases (lookup other s.identities)) [
  | inr (stored, e) ↦ rw (e, claim_agent_identity) h
  | inl e ↦
      rw (e, claim_agent_identity)
        (ground (arith, e, h, eq_iff other agent, lookup-insert other agent claimer s.identities))
]

claimed_all :
    (agent key : String) (cs : List (String × String)) (s : Store)
    → lookup agent s.identities ≡ some key
    → lookup agent (claim_all cs s).identities ≡ some key
claimed_all agent key [] s h = h
claimed_all agent key ((other, claimer) ∷ cs) s h =
    claimed_all agent key cs (claim_agent_identity other claimer s).1
      (claimed agent key other claimer s h)

granted_claim :
    (agent key : String) (s : Store)
    → (claim_agent_identity agent key s).0 ≡ true
    → lookup agent (claim_agent_identity agent key s).1.identities ≡ some key
unfolding claim_agent_identity
granted_claim agent key s h = elim (Option-cases (lookup agent s.identities)) [
  | inl e ↦
      rw (e, claim_agent_identity)
        (ground (arith, eq_refl agent, lookup-insert agent agent key s.identities))
  | inr (stored, e) ↦
      let same : stored ≡ key = (eq_iff stored key).0 (ground (arith, e, h)) in
      rw (e, claim_agent_identity) (e ∙ ap some same)
]

-- Once a claim of an agent id was granted to a key, whatever claims follow, another claim of it is
-- granted exactly to the same key.
pub identity_is_permanent :
    (agent key later : String) (cs : List (String × String)) (s : Store)
    → (claim_agent_identity agent key s).0 ≡ true
    → (claim_agent_identity agent later (claim_all cs (claim_agent_identity agent key s).1)).0
      ≡ (key == later)
unfolding claim_agent_identity
identity_is_permanent agent key later cs s granted =
    let holds : lookup agent (claim_agent_identity agent key s).1.identities ≡ some key =
      granted_claim agent key s granted in
    rw (claimed_all agent key cs (claim_agent_identity agent key s).1 holds, claim_agent_identity)
      refl
