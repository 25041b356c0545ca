-- ===== src/Store/Tests.antt =====
-- The store's theorems at small tables.
use cowchat4win.Base.{
  ℕ, suc, ◌≤◌, String, ◌≡◌, ◌⊎◌, refl, true, false, none, some, List, [], ◌∷◌, ◌==◌, ◌&&◌, not,
  arith, any, map, retain, ok, err,
}
use cowchat4win.Base.Dict.{lookup}
use cowchat4win.Base.Tables.{find_row, order_by}
use cowchat4win.Protocol.{null}
use cowchat4win.Models.{Room}
use cowchat4win.Store.{
  Store, RoomRow, MessageRow, InviteMeta, VoteMeta, BallotRow, SubscriptionRow, DestroyRoomError,
  created_tables, map_room_row, vote_closed,
}
use cowchat4win.Store.Names.{
  normalize_room_name, IsCanonical, normalize_room_name-IsCanonical, trim_start, trim_end, any_char,
  is_whitespace, is_control,
}
use cowchat4win.Store.Rooms.{list_rooms_for_key, by_name, under}
use cowchat4win.Store.Rooms.Unique.{Unique}
use cowchat4win.Store.Rooms.Run.{RoomCall, creates, renames, destroys, room_run, room_run-Unique}
use cowchat4win.Store.Rooms.Listing.{accessible, list_rooms_for_key-accessible}
use cowchat4win.Store.Messages.{in_room, room_tip}
use cowchat4win.Store.Messages.Sequence.{Numbered}
use cowchat4win.Store.Messages.Consecutive.{
  MessageCall, inserts, purges, message_run, numbers_in, IsCounting, message_run-IsCounting,
  message_run-Numbered,
}
use cowchat4win.Store.Messages.Paging.{read_pages, after, read_pages_complete}
use cowchat4win.Store.Destruction.{destroy_room_authorized}
use cowchat4win.Store.Destruction.Granted.{Destroyable, Refused}
use cowchat4win.Store.Destruction.Erased.{IsErased, destroy_room_authorized-IsErased}
use cowchat4win.Store.Keys.{claim_agent_identity, claim_all, identity_is_permanent}
use cowchat4win.Store.Invites.{key_has_grant}
use cowchat4win.Store.Invites.Redeem.{redeems, revokes, invite_run, left, single_use_once}
use cowchat4win.Store.Rooms.{granted_row}
use cowchat4win.Store.Invites.Mirror.{
  GrantCall, grants_room, forgets_room, reopens, grant_run, reopened, reopened-Mirrors,
  key_has_grant-room_grants,
}
use cowchat4win.Store.Votes.{get_vote_meta, get_vote_ballots, close_vote, cast_vote, new}
use cowchat4win.Store.Votes.Final.{casts, closes, vote_run, closed_vote_is_final}
use cowchat4win.Store.Votes.Restored.{expected, restored_votes}
use cowchat4win.Store.Subscriptions.{load_due_deliveries}
use cowchat4win.Store.Subscriptions.Queue.{QueueCall, enqueues, reschedules, queue_run}
use cowchat4win.Store.Subscriptions.Batch.{
  OnePerSubscription, load_due_deliveries-OnePerSubscription,
}

normalize_room_name-IsCanonical_example :
    IsCanonical "cows" × (normalize_room_name "cows" ≡ ok "cows")
unfolding normalize_room_name trim_start trim_end any_char is_whitespace is_control
normalize_room_name-IsCanonical_example = normalize_room_name-IsCanonical " cows " "cows" refl

abbrev room_calls : List RoomCall
room_calls =
    creates 5 "r1" " cows " none none (some "ann") "private" (some "k") false
    ∷ creates 6 "r2" "cows" none none (some "bob") "public" (some "k2") false
    ∷ creates 7 "r3" "barn" none (some "r1") (some "bob") "public" (some "k2") false
    ∷ renames "r3" "bob" "k2" false "stable"
    ∷ destroys "r1" "ann" "k" false
    ∷ []

room_run-Unique_example : Unique (room_run created_tables room_calls).rooms
room_run-Unique_example = room_run-Unique created_tables room_calls tt

abbrev private_room : RoomRow
private_room = record {
  room_id = "r";
  name = "cows";
  description = none;
  parent_id = none;
  created_by = some "ann";
  created_at = 0;
  visibility = "private";
  owner_key = some "k";
  encrypted = false;
}

abbrev tables : Store
tables = record created_tables { rooms = private_room ∷ []; room_grants = ("k2", "r") ∷ [] }

list_rooms_for_key-accessible_example :
    list_rooms_for_key (some "k2") none (reopened tables)
    ≡ map map_room_row (
        order_by by_name (
          retain
            (λ r. under none r && accessible "k2" (reopened tables) r)
            (reopened tables).rooms))
list_rooms_for_key-accessible_example =
    list_rooms_for_key-accessible "k2" none (reopened tables) (λ e. cc e) (λ e. cc e)
      (reopened-Mirrors tables)

abbrev message_calls : List MessageCall
message_calls =
    inserts 9 "m1" "r" "a" "ann" "Moo" none null
    ∷ inserts 9 "m2" "elsewhere" "a" "ann" "Moo" none null
    ∷ purges 90000000 "free" 1
    ∷ inserts 91000000 "m3" "r" "a" "ann" "Moo" none null
    ∷ []

message_run-IsCounting_example :
    IsCounting (suc (room_tip "r" tables)) (numbers_in "r" (message_run tables message_calls).0)
message_run-IsCounting_example = message_run-IsCounting "r" tables message_calls

message_run-Numbered_example : Numbered "r" (message_run tables message_calls).1
message_run-Numbered_example = message_run-Numbered "r" tables message_calls (omega arith)

abbrev message : String → ℕ → MessageRow
message id seq = record {
  message_id = id;
  room_id = "r";
  agent_id = "a";
  agent_name = "ann";
  content = "Moo";
  reply_to_message = none;
  metadata = null;
  created_at = 0;
  seq = seq;
}

abbrev history : Store
history = record tables {
  messages = message "m1" 1 ∷ message "m2" 3 ∷ message "m3" 4 ∷ [];
  sequences = ("r", 4) ∷ [];
}

read_pages_complete_example :
    read_pages 3 "r" 2 0 history ≡ after 0 (retain (in_room "r") history.messages)
unfolding lookup
read_pages_complete_example =
    read_pages_complete 3 "r" 2 0 history ((omega arith, (omega arith, (omega arith, omega arith))))
      (omega arith) (omega arith) (omega arith)

destroy_room_authorized-IsErased_example :
    let (r, s') = destroy_room_authorized "r" "ann" "k" false history in
    ((room : Room) × (r ≡ ok room)
      × Destroyable "r" "ann" "k" false history room
      × IsErased "r" history.votes history.subscriptions s')
    ⊎ ((e : DestroyRoomError) × (r ≡ err e)
        × (s' ≡ history)
        × Refused "r" history e
        × ((room : Room) → ¬ Destroyable "r" "ann" "k" false history room))
destroy_room_authorized-IsErased_example =
    destroy_room_authorized-IsErased "r" "ann" "k" false history

identity_is_permanent_example :
    (claim_agent_identity "ann" "k2"
      (claim_all (("ann", "k3") ∷ []) (claim_agent_identity "ann" "k" tables).1)).0
    ≡ ("k" == "k2")
unfolding claim_agent_identity lookup
identity_is_permanent_example =
    identity_is_permanent "ann" "k" "k2" (("ann", "k3") ∷ []) tables refl

abbrev invite : InviteMeta
invite = record {
  room_id = "r";
  created_by_key = "k";
  single_use = true;
  redeemed_count = 0;
  revoked = false;
}

single_use_once_example :
    (invite_run "h"
      (record tables { invites = ("h", invite) ∷ [] })
      (redeems "h" ∷ redeems "h" ∷ revokes "h" ∷ redeems "h" ∷ [])).0
    ≤ left invite
unfolding lookup
single_use_once_example =
    single_use_once "h" (record tables { invites = ("h", invite) ∷ [] })
      (redeems "h" ∷ redeems "h" ∷ revokes "h" ∷ redeems "h" ∷ []) invite refl refl

abbrev grant_calls : List GrantCall
grant_calls = grants_room "k3" "r" ∷ forgets_room "r" ∷ grants_room "k4" "r" ∷ reopens ∷ []

key_has_grant-room_grants_example :
    let after = grant_run (reopened tables) grant_calls in
    key_has_grant "k4" "r" after
    ≡ (not ("k4" == "") && any (granted_row "k4" "r") after.room_grants)
key_has_grant-room_grants_example = key_has_grant-room_grants tables grant_calls "k4" "r"

abbrev vote : VoteMeta
vote = record {
  vote_id = "v";
  room_id = "r";
  title = "Grass or hay";
  description = none;
  options = "grass" ∷ "hay" ∷ [];
  created_by = "ann";
  created_at = 0;
  closes_at = none;
  status = "open";
  eligible_voters = 2;
}

abbrev ballot : BallotRow
ballot = record { vote_id = "v"; agent_id = "a"; agent_name = "ann"; option_index = 1; cast_at = 0 }

abbrev poll : Store
poll = record tables {
  votes = vote ∷ [];
  ballots = ballot ∷ [];
  eligible = ("v", "a") ∷ ("v", "b") ∷ [];
}

closed_vote_is_final_example :
    (get_vote_ballots "v"
        (vote_run (close_vote "v" poll) (casts 3 "v" "b" "bob" 0 ∷ closes "v" ∷ []))
      ≡ get_vote_ballots "v" poll)
    × ((cast_vote 4 "v" "b" "bob" 0
          (vote_run (close_vote "v" poll) (casts 3 "v" "b" "bob" 0 ∷ closes "v" ∷ []))).0
        ≡ err vote_closed)
unfolding get_vote_meta find_row
closed_vote_is_final_example =
    closed_vote_is_final "v" poll vote (casts 3 "v" "b" "bob" 0 ∷ closes "v" ∷ []) 4 "b" "bob" 0
      refl

restored_votes_example : lookup "v" (new poll).active_votes ≡ expected poll (get_vote_meta "v" poll)
restored_votes_example = restored_votes "v" poll (refl, tt)

abbrev subscription : String → SubscriptionRow
subscription id = record {
  sub = record {
    subscription_id = id;
    room_id = "r";
    webhook_url = "https://example.org/hook";
    kinds = [];
    only_from = none;
    not_from = none;
    exclude_thinking = false;
    since_seq = 0;
    last_delivered_seq = 0;
    status = "active";
    failure_count = 0;
    created_at = 0;
  };
  owner_key = "k";
  secret = "s";
}

abbrev hooks : Store
hooks = record history { subscriptions = subscription "s1" ∷ subscription "s2" ∷ [] }

abbrev queue_calls : List QueueCall
queue_calls =
    enqueues "d1" "s1" 1 "m1" 7
    ∷ enqueues "d2" "s2" 1 "m1" 7
    ∷ enqueues "d3" "s1" 3 "m2" 7
    ∷ enqueues "d4" "s1" 3 "m2" 7
    ∷ reschedules "d1" 8 1 "HTTP 500"
    ∷ []

load_due_deliveries-OnePerSubscription_example :
    OnePerSubscription (load_due_deliveries 9 32 (queue_run hooks queue_calls))
load_due_deliveries-OnePerSubscription_example =
    load_due_deliveries-OnePerSubscription hooks queue_calls 9 32 tt
