-- ===== src/Store/Destruction/Granted.antt =====
-- Whom store.rs lets destroy a room, by rules of their own.
use cowchat4win.Base.{
  String, ◌≡◌, ◌≢◌, ◌↔◌, sym, ap, ◌∙◌, subst, Bool, true, false, Option, none, some, arith, ◌==◌,
  eq_iff, Bool-cases, Option-cases, inl, inr, ◌⊎◌,
}
use cowchat4win.Models.{Room}
use cowchat4win.Access.{Keyholder, matches_room_owner-Keyholder}
use cowchat4win.Store.{
  Store, DestroyRoomError, destroy_not_found, destroy_access_denied, destroy_protected_room,
}
use cowchat4win.Store.Rooms.{is_text, query_room_by_id, is_protected, may_mutate}

-- The caller may destroy the room: it is there and no system room, which are the lobby and those
-- without a creator, and the caller is its creator, with a key that owns it.
pub record Destroyable (k agent key : String) (no_auth : Bool) (s : Store) (room : Room)
    : Type 0 where
  pub found : query_room_by_id k s ≡ some room
  pub not_lobby : room.room_id ≢ "lobby"
  pub creator : room.created_by ≡ some agent
  pub keyholder : Keyholder key no_auth room.owner_key

-- Which answer a refusal gives: the room is not there, it is a system room, or it is neither.
abbrev pub Refused : String → Store → DestroyRoomError → Type 0
Refused k s destroy_not_found = query_room_by_id k s ≡ none
Refused k s destroy_protected_room =
    (room : Room) × (query_room_by_id k s ≡ some room)
    × ((room.room_id ≡ "lobby") ⊎ (room.created_by ≡ none))
Refused k s destroy_access_denied =
    (room : Room) × (query_room_by_id k s ≡ some room)
    × (room.room_id ≢ "lobby")
    × (room.created_by ≢ none)

pub protected_room :
    (room : Room) → is_protected room ≡ true → (room.room_id ≡ "lobby") ⊎ (room.created_by ≡ none)
protected_room room p = elim (Bool-cases (room.room_id == "lobby")) [
  | inl e ↦ inl ((eq_iff room.room_id "lobby").0 e)
  | inr e ↦ elim (Option-cases room.created_by) [
    | inl c ↦ inr c
    | inr (a, c) ↦ absurd (ground (arith, p, e, c))
  ]
]

pub open_room :
    (room : Room) → is_protected room ≡ false → (room.room_id ≢ "lobby") × (room.created_by ≢ none)
open_room room p =
    ((λ e. ground (arith, p, eq_iff room.room_id "lobby", e)), (λ c. ground (arith, p, c)))

is_text_iff : (o : Option String) (a : String) → (is_text o a ≡ true) ↔ (o ≡ some a)
is_text_iff none a = ((λ h. absurd (ground (arith, h))), (λ e. absurd (cc)))
is_text_iff (some t) a =
    ((λ h. ap some ((eq_iff t a).0 h)), (λ e. let same : t ≡ a = cc in (eq_iff t a).1 same))

-- The tests of the code, taken together, are those rules.
pub tests-Destroyable :
    (k agent key : String) (no_auth : Bool) (s : Store) (room : Room)
    → query_room_by_id k s ≡ some room
    → is_protected room ≡ false
    → may_mutate room agent key no_auth ≡ true
    → Destroyable k agent key no_auth s room
tests-Destroyable k agent key no_auth s room f p a = record {
  found = f;
  not_lobby = λ e. ground (arith, p, eq_iff room.room_id "lobby", e);
  creator = (is_text_iff room.created_by agent).0 (ground (arith, a));
  keyholder = (matches_room_owner-Keyholder key no_auth room.owner_key).0 (ground (arith, a));
}

pub Destroyable-tests :
    (k agent key : String) (no_auth : Bool) (s : Store) (room other : Room)
    → query_room_by_id k s ≡ some room
    → Destroyable k agent key no_auth s other
    → (is_protected room ≡ false) × (may_mutate room agent key no_auth ≡ true)
Destroyable-tests k agent key no_auth s room other f d =
    let both : some room ≡ some other = sym f ∙ d.found in
    let same : other ≡ room = cc in
    let lobby : other.room_id == "lobby" ≡ false = not_equal other.room_id d.not_lobby in
    let owner = (matches_room_owner-Keyholder key no_auth other.owner_key).1 d.keyholder in
    subst (λ r. (is_protected r ≡ false) × (may_mutate r agent key no_auth ≡ true)) same
      (
        rw d.creator (ground (arith, lobby)),
        ground (arith, (is_text_iff other.created_by agent).1 d.creator, owner),
      )
  where
    not_equal : (id : String) → id ≢ "lobby" → (id == "lobby") ≡ false
    not_equal id ne = elim (Bool-cases (id == "lobby")) [
      | inl e ↦ absurd (ne ((eq_iff id "lobby").0 e))
      | inr e ↦ e
    ]
