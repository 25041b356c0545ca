-- ===== src/Store/Rooms/Listing.antt =====
-- The rooms that a key is shown, against the access rules.
use cowchat4win.Base.{
  String, ◌≡◌, ◌≢◌, refl, ap, Bool, false, ◌&&◌, Option, none, some, List, [], ◌∷◌, arith, eq_iff,
  map, retain,
}
use cowchat4win.Base.Tables.{order_by}
use cowchat4win.Access.{
  can_access_room, can_access_room_parts, matches_room_owner, legacy_unowned_owner_key,
}
use cowchat4win.Store.{Store, RoomRow, map_owner_key, map_room_row}
use cowchat4win.Store.Rooms.{
  is_text, by_name, under, visible_to_key, list_rooms_for_key, select_rooms,
}
use cowchat4win.Store.Invites.{key_has_grant}
use cowchat4win.Store.Invites.Mirror.{Mirrors}

-- The access rules on the row, with the cached grants.
abbrev pub accessible : String → Store → RoomRow → Bool
accessible key s r = can_access_room (map_room_row r) key false (key_has_grant key r.room_id s)

owner-is_text :
    (key : String) (o : Option String)
    → key ≢ ""
    → key ≢ legacy_unowned_owner_key
    → matches_room_owner (map_owner_key o) key false ≡ is_text o key
unfolding matches_room_owner map_owner_key
owner-is_text key none ne nl = refl
owner-is_text key (some owner) ne nl = ground (
  arith,
  ne,
  nl,
  eq_iff owner "",
  eq_iff key "",
  eq_iff owner key,
  eq_iff owner legacy_unowned_owner_key,
)

visible-accessible :
    (key : String) (s : Store) (r : RoomRow)
    → key ≢ ""
    → key ≢ legacy_unowned_owner_key
    → Mirrors s
    → visible_to_key (some key) s r ≡ accessible key s r
unfolding can_access_room can_access_room_parts map_room_row key_has_grant
visible-accessible key s r ne nl mirror =
    ground
      (arith, ne, eq_iff key "", owner-is_text key r.owner_key ne nl, mirror.same key r.room_id)

retain-cong :
    (p q : RoomRow → Bool) (rs : List RoomRow)
    → ((r : RoomRow) → p r ≡ q r)
    → retain p rs ≡ retain q rs
retain-cong p q [] h = refl
retain-cong p q (r ∷ rs) h = rw (h r, retain-cong p q rs h) refl

-- For a key that is not empty and not the legacy marker, while the cache mirrors the table of the
-- grants, the listing shows exactly the rooms that the access rules open to the key, by name.
pub list_rooms_for_key-accessible :
    (key : String) (parent : Option String) (s : Store)
    → key ≢ ""
    → key ≢ legacy_unowned_owner_key
    → Mirrors s
    → list_rooms_for_key (some key) parent s
      ≡ map map_room_row
          (order_by by_name (retain (λ r. under parent r && accessible key s r) s.rooms))
unfolding list_rooms_for_key select_rooms
list_rooms_for_key-accessible key parent s ne nl mirror =
    ap (λ rs. map map_room_row (order_by by_name rs))
      (retain-cong (λ r. under parent r && visible_to_key (some key) s r)
        (λ r. under parent r && accessible key s r) s.rooms
        (λ r. ap (λ b. under parent r && b) (visible-accessible key s r ne nl mirror)))
