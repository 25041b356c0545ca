-- ===== src/Store/Destruction.antt =====
-- The destruction of a room in crates/cowchat-server/src/store.rs.
pub mod Granted
pub mod Erased
use cowchat4win.Base.{
  ℕ, String, Bool, true, false, not, ◌&&◌, ◌||◌, Option, none, some, List, [], ◌∷◌, ◌==◌,
  if◌then◌else◌, any, is_empty, without,
}
use cowchat4win.Base.Dict.{Dict, remove}
use cowchat4win.Base.Tables.{update_where, delete_where}
use cowchat4win.Models.{Room, TaskInfo}
use cowchat4win.Base.{Result, ok, err}
use cowchat4win.Store.{
  Store, RoomRow, MessageRow, VoteMeta, BallotRow, SubscriptionRow, DeliveryRow, InviteMeta,
  DestroyRoomError, destroy_not_found, destroy_access_denied, destroy_protected_room,
}
use cowchat4win.Store.Rooms.{has_room_id, is_text, query_room_by_id, is_protected, may_mutate}
use cowchat4win.Store.Messages.{delete_messages}

-- `WHERE vote_id IN (SELECT vote_id FROM votes WHERE room_id = ?)`, and likewise for subscriptions.
abbrev pub vote_in_room : String → List VoteMeta → String → Bool
vote_in_room room_id votes vote_id =
    any (λ (v : VoteMeta). v.vote_id == vote_id && v.room_id == room_id) votes

abbrev pub sub_in_room : String → List SubscriptionRow → String → Bool
sub_in_room room_id subs id =
    any (λ (r : SubscriptionRow). r.sub.subscription_id == id && r.sub.room_id == room_id) subs

-- `DELETE FROM … WHERE room_id = ?` on the tables that are dictionaries.
unfoldable pub remove_invites : String → Dict InviteMeta → Dict InviteMeta
remove_invites room_id [] = []
remove_invites room_id ((k, i) ∷ m) =
    let rest = remove_invites room_id m in if i.room_id == room_id then rest else (k, i) ∷ rest

unfoldable pub delete_room_artifacts_in_transaction : String → Store → Store
unfolding delete_where delete_messages remove_invites
delete_room_artifacts_in_transaction room_id s = record s {
  deliveries =
      delete_where (λ (d : DeliveryRow). sub_in_room room_id s.subscriptions d.subscription_id)
        s.deliveries;
  subscriptions = delete_where (λ (r : SubscriptionRow). r.sub.room_id == room_id) s.subscriptions;
  ballots = delete_where (λ (b : BallotRow). vote_in_room room_id s.votes b.vote_id) s.ballots;
  eligible = delete_where (λ (e : String × String). vote_in_room room_id s.votes e.0) s.eligible;
  votes = delete_where (λ (v : VoteMeta). v.room_id == room_id) s.votes;
  tasks = delete_where (λ (t : TaskInfo). t.room_id == room_id) s.tasks;
  messages = delete_messages (λ (m : MessageRow). m.room_id == room_id) s.messages;
  sequences = remove room_id s.sequences;
  invites = remove_invites room_id s.invites;
  room_grants = delete_where (λ (g : String × String). g.1 == room_id) s.room_grants;
}

-- `UPDATE rooms SET parent_id = NULL WHERE parent_id = ?`
unfoldable pub detach_children : String → Store → Store
unfolding update_where
detach_children room_id s = record s {
  rooms =
      update_where (λ (r : RoomRow). is_text r.parent_id room_id)
        (λ (r : RoomRow). record r { parent_id = none }) s.rooms;
}

unfoldable pub detach_children_and_delete_room_artifacts : String → Store → Store
unfolding detach_children delete_room_artifacts_in_transaction
detach_children_and_delete_room_artifacts room_id s =
    delete_room_artifacts_in_transaction room_id (detach_children room_id s)

-- A key without rooms is dropped.
unfoldable pub purge_grants : String → Dict (List String) → Dict (List String)
purge_grants room_id [] = []
purge_grants room_id ((k, rooms) ∷ m) =
    let rest = purge_grants room_id m in
    let left = without room_id rooms in if is_empty left then rest else (k, left) ∷ rest

unfoldable pub purge_room_grants_from_cache : String → Store → Store
unfolding purge_grants
purge_room_grants_from_cache room_id s = record s { grants = purge_grants room_id s.grants }

unfoldable pub delete_room_artifacts : String → Store → Store
unfolding delete_room_artifacts_in_transaction purge_room_grants_from_cache
delete_room_artifacts room_id s =
    purge_room_grants_from_cache room_id (delete_room_artifacts_in_transaction room_id s)

unfoldable pub destroy_room_authorized :
    String → String → String → Bool → Store → Result Room DestroyRoomError × Store
unfolding query_room_by_id detach_children_and_delete_room_artifacts purge_room_grants_from_cache
    delete_where
destroy_room_authorized room_id agent_id api_key no_auth s = elim (query_room_by_id room_id s) [
  | none ↦ (err destroy_not_found, s)
  | some room ↦
      if is_protected room
      then (err destroy_protected_room, s)
      else if not (may_mutate room agent_id api_key no_auth)
      then (err destroy_access_denied, s)
      else let s' = detach_children_and_delete_room_artifacts room_id s in
        (
          ok room,
          purge_room_grants_from_cache room_id
              (record s' { rooms = delete_where (has_room_id room_id) s'.rooms }),
        )
]
