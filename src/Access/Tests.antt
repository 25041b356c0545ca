-- ===== src/Access/Tests.antt =====
-- Runs of connection.rs's tests, and the theorems at concrete rooms.
use cowchat4win.Base.{◌≡◌, ◌↔◌, ◌⊎◌, refl, Bool, true, false, none, some}
use cowchat4win.Models.{Room}
use cowchat4win.Access.{
  legacy_unowned_owner_key, matches_room_owner, can_access_room_parts, can_access_room, Owns,
  can_access_room_iff,
}

abbrev legacy_room : Room
legacy_room = record {
  room_id = "r1";
  name = "old";
  description = none;
  parent_id = none;
  created_at = 0;
  created_by = none;
  visibility = "private";
  owner_key = some legacy_unowned_owner_key;
  last_activity = none;
  member_count = none;
  encrypted = false;
}

keyless_private : can_access_room_parts "private" none "" false ≡ true
unfolding can_access_room_parts matches_room_owner
keyless_private = refl

other_key_private : can_access_room_parts "private" (some "owner-key") "other-key" false ≡ false
unfolding can_access_room_parts matches_room_owner
other_key_private = refl

can_access_room_iff_example : (can_access_room legacy_room "key" true false ≡ true) ↔ (
    (◌≡◌ {A = Bool} true true)
    ⊎ (legacy_room.visibility ≡ "public")
    ⊎ Owns "key" legacy_room.owner_key
    ⊎ (◌≡◌ {A = Bool} false true))
can_access_room_iff_example = can_access_room_iff legacy_room "key" true false
