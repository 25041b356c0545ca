-- ===== src/Store/Rooms.antt =====
-- The rooms of crates/cowchat-server/src/store.rs: creation, lookup, listing, renaming, destruction.
pub mod Unique
pub mod Run
pub mod Listing
use Prim.Native.Nat.{Ordering}
use Prim.Native.String.{compare}
use cowchat4win.Base.{
  ℕ, String, Bool, true, false, not, ◌&&◌, ◌||◌, Option, none, some, List, [], ◌∷◌, ◌++◌, ◌==◌,
  if◌then◌else◌, any, map, is_some, unwrap_or, contains, retain, is_empty, length,
}
use cowchat4win.Base.Dict.{Dict, lookup, insert, remove, keys}
use cowchat4win.Base.Tables.{find_row, update_where, delete_where, count_where, order_by}
use cowchat4win.Models.{Room, TaskInfo}
use cowchat4win.Access.{matches_room_owner}
use cowchat4win.Base.{Result, ok, err}
use cowchat4win.Store.{
  Store, RoomRow, MessageRow, VoteMeta, BallotRow, SubscriptionRow, DeliveryRow, InviteMeta,
  StoreError, db, room_name_taken, invalid_room_name, DestroyRoomError, destroy_not_found,
  destroy_access_denied, destroy_protected_room, RenameRoomError, rename_not_found,
  rename_access_denied, rename_protected_room, invalid_name, name_taken, to_millis, map_room_row,
}
use cowchat4win.Store.Names.{normalize_room_name}

abbrev pub has_room_id : String → RoomRow → Bool
has_room_id room_id r = r.room_id == room_id

abbrev pub has_name : String → RoomRow → Bool
has_name name r = r.name == name

-- The text of a nullable column is the given one.
abbrev pub is_text : Option String → String → Bool
is_text none s = false
is_text (some t) s = t == s

-- The constraints of a new room: its id, its name, and its parent, which is another room.
abbrev pub parent_ok : String → Option String → List RoomRow → Bool
parent_ok room_id none rooms = true
parent_ok room_id (some p) rooms = not (p == room_id) && any (has_room_id p) rooms

unfoldable pub query_room_by_id : String → Store → Option Room
unfolding find_row map_room_row
query_room_by_id room_id s = elim (find_row (has_room_id room_id) s.rooms) [
  | none ↦ none
  | some r ↦ some (map_room_row r)
]

-- The unique columns are tested before the foreign key, which SQLite looks at when the row is in.
unfoldable pub insert_room : RoomRow → Store → Result (Unit {0}) StoreError × Store
insert_room row s =
    if any (has_room_id row.room_id) s.rooms
    then (err db, s)
    else if any (has_name row.name) s.rooms
    then (err (room_name_taken row.name), s)
    else if not (parent_ok row.room_id row.parent_id s.rooms)
    then (err db, s)
    else (ok tt, record s { rooms = s.rooms ++ row ∷ [] })

-- The row that was put in is read again.
unfoldable pub read_created :
    String → Store → Result (Unit {0}) StoreError × Store → Result Room StoreError × Store
unfolding query_room_by_id
read_created room_id s (err e, s') = (err e, s)
read_created room_id s (ok u, s') = elim (query_room_by_id room_id s') [
  | none ↦ (err db, s')
  | some room ↦ (ok room, s')
]

unfoldable pub create_room_with_visibility :
    ℕ
    → String
    → String
    → Option String
    → Option String
    → Option String
    → String
    → Option String
    → Bool
    → Store
    → Result Room StoreError × Store
unfolding insert_room read_created
create_room_with_visibility now room_id name description parent_id created_by visibility owner_key
      encrypted s =
    elim (normalize_room_name name) [
      | err why ↦ (err (invalid_room_name why), s)
      | ok name' ↦
          let row : RoomRow = record {
            room_id = room_id;
            name = name';
            description = description;
            parent_id = parent_id;
            created_by = created_by;
            created_at = to_millis now;
            visibility = visibility;
            owner_key = some (unwrap_or owner_key "");
            encrypted = encrypted;
          } in
          read_created room_id s (insert_room row s)
    ]

unfoldable pub create_room :
    ℕ
    → String
    → String
    → Option String
    → Option String
    → Option String
    → Store
    → Result Room StoreError × Store
unfolding create_room_with_visibility
create_room now room_id name description parent_id created_by s =
    create_room_with_visibility now room_id name description parent_id created_by "private" none
      false s

unfoldable pub get_room : String → Store → Option Room
unfolding query_room_by_id
get_room room_id s = query_room_by_id room_id s

unfoldable pub get_room_by_name : String → Store → Option Room
unfolding find_row map_room_row
get_room_by_name name s = elim (find_row (has_name name) s.rooms) [
  | none ↦ none
  | some r ↦ some (map_room_row r)
]

-- `ORDER BY name`
abbrev pub by_name : RoomRow → RoomRow → Bool
by_name a b = elim (compare a.name b.name) [ Ordering.gt ↦ false | _ ↦ true ]

unfoldable pub select_rooms : (RoomRow → Bool) → Store → List Room
select_rooms p s = map map_room_row (order_by by_name (retain p s.rooms))

abbrev pub under : Option String → RoomRow → Bool
under none r = true
under (some parent) r = is_text r.parent_id parent

unfoldable pub list_rooms : Option String → Store → List Room
unfolding select_rooms
list_rooms parent_id s = select_rooms (under parent_id) s

-- `room_id IN (SELECT room_id FROM room_grants WHERE api_key = ?)`
abbrev pub granted_row : String → String → String × String → Bool
granted_row key room_id (k, r) = k == key && r == room_id

abbrev pub visible_to_key : Option String → Store → RoomRow → Bool
visible_to_key none s r = r.visibility == "public"
visible_to_key (some key) s r =
    r.visibility == "public"
    || is_text r.owner_key key
    || any (granted_row key r.room_id) s.room_grants

unfoldable pub list_rooms_for_key : Option String → Option String → Store → List Room
unfolding select_rooms
list_rooms_for_key api_key parent_id s =
    select_rooms (λ r. under parent_id r && visible_to_key api_key s r) s

unfoldable pub count_rooms_for_key : String → Store → ℕ
unfolding count_where
count_rooms_for_key api_key s = count_where (λ (r : RoomRow). is_text r.owner_key api_key) s.rooms

-- The creator, at the owner's key.
abbrev pub may_mutate : Room → String → String → Bool → Bool
may_mutate room agent_id api_key no_auth =
    is_text room.created_by agent_id && matches_room_owner room.owner_key api_key no_auth

abbrev pub is_protected : Room → Bool
is_protected room = room.room_id == "lobby" || not (is_some room.created_by)

unfoldable pub rename_room_authorized :
    String → String → String → Bool → String → Store → Result Room RenameRoomError × Store
unfolding query_room_by_id update_where
rename_room_authorized room_id agent_id api_key no_auth name s = elim (normalize_room_name name) [
  | err why ↦ (err (invalid_name why), s)
  | ok name' ↦ elim (query_room_by_id room_id s) [
    | none ↦ (err rename_not_found, s)
    | some room ↦
        if is_protected room
        then (err rename_protected_room, s)
        else if not (may_mutate room agent_id api_key no_auth)
        then (err rename_access_denied, s)
        else if room.name == name'
        then (ok room, s)
        else if any (has_name name') s.rooms
        then (err (name_taken name'), s)
        else (
          ok (record room { name = name' }),
          record s {
            rooms =
                update_where (has_room_id room_id) (λ (r : RoomRow). record r { name = name' })
                  s.rooms;
          },
        )
  ]
]
