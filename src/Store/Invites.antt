-- ===== src/Store/Invites.antt =====
-- Invites and grants of crates/cowchat-server/src/store.rs, with the cache of the grants.
pub mod Redeem
pub mod Mirror
use cowchat4win.Base.{
  ℕ, ◌+◌, String, Bool, true, false, not, ◌&&◌, ◌||◌, Option, none, some, List, [], ◌∷◌, ◌++◌, ◌==◌,
  if◌then◌else◌, any, contains, unwrap_or, is_some,
}
use cowchat4win.Base.Dict.{Dict, lookup, insert, contains_key}
use cowchat4win.Base.{Result, ok, err}
use cowchat4win.Store.{Store, InviteMeta, StoreError, db}
use cowchat4win.Store.Rooms.{granted_row}

unfoldable pub create_invite :
    String → String → String → Bool → Store → Result (Unit {0}) StoreError × Store
create_invite token_hash room_id created_by_key single_use s =
    if contains_key token_hash s.invites
    then (err db, s)
    else let invite : InviteMeta = record {
      room_id = room_id;
      created_by_key = created_by_key;
      single_use = single_use;
      redeemed_count = 0;
      revoked = false;
    } in
      (ok tt, record s { invites = insert token_hash invite s.invites })

unfoldable pub get_invite : String → Store → Option InviteMeta
get_invite token_hash s = lookup token_hash s.invites

-- The guarded UPDATE, and the room of the row that it touched.
unfoldable pub redeem_invite : String → Store → Option String × Store
redeem_invite token_hash s = elim (lookup token_hash s.invites) [
  | none ↦ (none, s)
  | some i ↦
      if i.revoked
      then (none, s)
      else let i' = record i {
        redeemed_count = i.redeemed_count + 1;
        revoked = if i.single_use then true else i.revoked;
      } in
        (some i.room_id, record s { invites = insert token_hash i' s.invites })
]

unfoldable pub revoke_invite : String → Store → Bool × Store
revoke_invite token_hash s = elim (lookup token_hash s.invites) [
  | none ↦ (false, s)
  | some i ↦
      (true, record s { invites = insert token_hash (record i { revoked = true }) s.invites })
]

-- A `HashSet` in which the room is put.
unfoldable pub add_room : String → List String → List String
add_room room_id rooms = if contains room_id rooms then rooms else room_id ∷ rooms

unfoldable pub add_room_grant : String → String → Store → Store
unfolding add_room
add_room_grant api_key room_id s = record s {
  room_grants =
      if any (granted_row api_key room_id) s.room_grants
      then s.room_grants
      else s.room_grants ++ (api_key, room_id) ∷ [];
  grants = insert api_key (add_room room_id (unwrap_or (lookup api_key s.grants) [])) s.grants;
}

unfoldable pub key_has_grant : String → String → Store → Bool
key_has_grant api_key room_id s =
    not (api_key == "") && contains room_id (unwrap_or (lookup api_key s.grants) [])

unfoldable pub keys_with : String → Dict (List String) → List String
keys_with room_id [] = []
keys_with room_id ((k, rooms) ∷ m) =
    let rest = keys_with room_id m in if contains room_id rooms then k ∷ rest else rest

unfoldable pub granted_keys_for_room : String → Store → List String
unfolding keys_with
granted_keys_for_room room_id s = keys_with room_id s.grants

-- At the end of `initialize`: the cache from the table.
unfoldable pub hydrate_grants : List (String × String) → Dict (List String) → Dict (List String)
unfolding add_room
hydrate_grants [] m = m
hydrate_grants ((k, r) ∷ rows) m =
    hydrate_grants rows (insert k (add_room r (unwrap_or (lookup k m) [])) m)
