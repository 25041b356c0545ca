-- ===== src/Access.antt =====
-- crates/cowchat-server/src/connection.rs: who may discover, use and own a room.
pub mod Tests
use cowchat4win.Base.{
  ℕ, String, ◌≡◌, ◌≢◌, ◌↔◌, refl, Bool, true, false, not, ◌&&◌, ◌||◌, Option, none, some, arith,
  ◌==◌, eq_iff, eq_refl, if◌then◌else◌, Bool-cases, inl, inr, ap, ◌⊎◌,
}
use cowchat4win.Models.{Room}

-- The marker of a room that predates ownership.
abbrev pub legacy_unowned_owner_key : String
legacy_unowned_owner_key = "\0cowchat:legacy-unowned"

unfoldable pub is_legacy : Option String → Bool
is_legacy none = false
is_legacy (some key) = key == legacy_unowned_owner_key

unfoldable pub matches_room_owner : Option String → String → Bool → Bool
unfolding is_legacy
matches_room_owner owner_key api_key auth_disabled =
    if is_legacy owner_key
    then false
    else auth_disabled || elim owner_key [
      | some owner ↦ not (api_key == "") && owner == api_key
      | none ↦ api_key == ""
    ]

unfoldable pub can_access_room_parts : String → Option String → String → Bool → Bool
can_access_room_parts visibility owner_key api_key auth_disabled =
    if auth_disabled || visibility == "public"
    then true
    else matches_room_owner owner_key api_key auth_disabled

-- `granted` is the answer of `store.key_has_grant(api_key, room_id)`.
unfoldable pub can_access_room : Room → String → Bool → Bool → Bool
can_access_room room api_key auth_disabled granted =
    can_access_room_parts room.visibility room.owner_key api_key auth_disabled || granted

-- The one principal that owns a room: the keyless client for a room without owner key, and
-- otherwise the holder of its key, which is neither empty nor the legacy marker.
pub data Owns (api_key : String) (owner_key : Option String) : Type 0 where
  keyless : api_key ≡ "" → owner_key ≡ none → Owns api_key owner_key
  keyed :
      api_key ≢ ""
      → api_key ≢ legacy_unowned_owner_key
      → owner_key ≡ some api_key
      → Owns api_key owner_key

owner_of : (k : String) (o : Option String) → matches_room_owner o k false ≡ true → Owns k o
unfolding matches_room_owner
owner_of k none h = keyless ((eq_iff k "").0 (ground arith)) refl
owner_of k (some owner) h =
    let same : owner ≡ k = (eq_iff owner k).0 (ground arith) in
    keyed (λ e. ground (arith, eq_iff k ""))
      (λ e. ground (arith, eq_iff owner legacy_unowned_owner_key, same)) (ap some same)

owner_matches : (k : String) (o : Option String) → Owns k o → matches_room_owner o k false ≡ true
unfolding matches_room_owner
owner_matches k o (keyless e n) = rw (n, e) refl
owner_matches k o (keyed e l s) =
    rw s (ground (arith, eq_iff k "", eq_iff k legacy_unowned_owner_key, eq_refl k))

-- With authentication on, the ownership test accepts exactly the room's one principal.
matches_room_owner_iff :
    (k : String) (o : Option String) → (matches_room_owner o k false ≡ true) ↔ Owns k o
matches_room_owner_iff k o = (owner_of k o, owner_matches k o)

-- With authentication off, whatever key is sent owns every room but those of the legacy marker.
matches_room_owner-open :
    (k : String) (o : Option String)
    → (matches_room_owner o k true ≡ true) ↔ (o ≢ some legacy_unowned_owner_key)
unfolding matches_room_owner
matches_room_owner-open k none = ((λ h e. cc), (λ h. refl))
matches_room_owner-open k (some owner) = (there, back)
  where
    there :
        matches_room_owner (some owner) k true ≡ true → some owner ≢ some legacy_unowned_owner_key
    there h e =
        let same : owner ≡ legacy_unowned_owner_key = cc in
        absurd (ground (arith, h, eq_iff owner legacy_unowned_owner_key, same))

    back :
        some owner ≢ some legacy_unowned_owner_key → matches_room_owner (some owner) k true ≡ true
    back ne = elim (Bool-cases (owner == legacy_unowned_owner_key)) [
      | inl e ↦ absurd (ne (ap some ((eq_iff owner legacy_unowned_owner_key).0 e)))
      | inr e ↦ ground (arith, e)
    ]

-- The key owns the room; with authentication off, any key does, unless the room has the legacy marker.
abbrev pub Keyholder : String → Bool → Option String → Type 0
Keyholder key no_auth owner_key =
    ((no_auth ≡ true) × (owner_key ≢ some legacy_unowned_owner_key))
    ⊎ ((no_auth ≡ false) × Owns key owner_key)

-- The ownership test accepts exactly who holds the room: its one principal or, with authentication
-- off, anybody at all, unless the room has the legacy marker.
pub matches_room_owner-Keyholder :
    (key : String) (no_auth : Bool) (o : Option String)
    → (matches_room_owner o key no_auth ≡ true) ↔ Keyholder key no_auth o
matches_room_owner-Keyholder key true o = (
  (λ h. inl (refl, (matches_room_owner-open key o).0 h)),
  (λ h. elim h [
    | inl (e, ne) ↦ (matches_room_owner-open key o).1 ne
    | inr (e, owns) ↦ absurd (ground (arith, e))
  ]),
)
matches_room_owner-Keyholder key false o = (
  (λ h. inr (refl, (matches_room_owner_iff key o).0 h)),
  (λ h. elim h [
    | inl (e, ne) ↦ absurd (ground (arith, e))
    | inr (e, owns) ↦ (matches_room_owner_iff key o).1 owns
  ]),
)

-- Who gets into a room: everybody where authentication is off or the room is public, else its
-- owner and the holders of a grant.
pub can_access_room_iff :
    (room : Room) (k : String) (auth_disabled granted : Bool)
    → (can_access_room room k auth_disabled granted ≡ true) ↔ (
        (auth_disabled ≡ true)
        ⊎ (room.visibility ≡ "public")
        ⊎ Owns k room.owner_key
        ⊎ (granted ≡ true))
unfolding can_access_room can_access_room_parts
can_access_room_iff room k auth_disabled granted = (there, back)
  where
    there :
        can_access_room room k auth_disabled granted ≡ true
        → (auth_disabled ≡ true)
          ⊎ (room.visibility ≡ "public")
          ⊎ Owns k room.owner_key
          ⊎ (granted ≡ true)
    there h = elim (Bool-cases auth_disabled) [
      | inl e ↦ inl e
      | inr e ↦ elim (Bool-cases (room.visibility == "public")) [
        | inl p ↦ inr (inl ((eq_iff room.visibility "public").0 p))
        | inr p ↦ elim (Bool-cases (matches_room_owner room.owner_key k false)) [
          | inl m ↦ inr (inr (inl (owner_of k room.owner_key m)))
          | inr m ↦ inr (inr (inr (ground (arith, h, e, p, m))))
        ]
      ]
    ]

    back :
        (auth_disabled ≡ true)
          ⊎ (room.visibility ≡ "public")
          ⊎ Owns k room.owner_key
          ⊎ (granted ≡ true)
        → can_access_room room k auth_disabled granted ≡ true
    back (inl e) = ground (arith, e)
    back (inr (inl e)) = ground (arith, e, eq_iff room.visibility "public")
    back (inr (inr (inl o))) =
        ground (arith, owner_matches k room.owner_key o, Bool-cases auth_disabled)
    back (inr (inr (inr e))) = ground (arith, e)
