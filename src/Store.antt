-- ===== src/Store.antt =====
-- crates/cowchat-server/src/store.rs: the tables of `initialize` as lists of rows, and the statements
-- on them. SQLite carries out what a statement says, a transaction is one step, and a statement that
-- violates a constraint of the schema is an error that changes nothing; other errors of a database
-- are not modelled. A timestamp column is a number of nanoseconds at whole milliseconds, as the
-- text of the column has it; JSON columns hold their values.
pub mod Names
pub mod Rooms
pub mod Messages
pub mod Destruction
pub mod Keys
pub mod Invites
pub mod Votes
pub mod Subscriptions
pub mod Tests
use cowchat4win.Base.{
  ℕ, ◌/◌, ◌*◌, String, Bool, true, false, Option, none, some, List, [], ◌∷◌, ◌==◌, if◌then◌else◌,
}
use cowchat4win.Base.Dict.{Dict}
use cowchat4win.Protocol.{Json}
use cowchat4win.Models.{Room, ChatMessage, TaskInfo, Subscription}
use cowchat4win.Access.{legacy_unowned_owner_key}

pub record RoomRow : Type 0 where
  pub room_id : String
  pub name : String
  pub description : Option String
  pub parent_id : Option String
  pub created_by : Option String
  pub created_at : ℕ
  pub visibility : String
  pub owner_key : Option String
  pub encrypted : Bool

pub record MessageRow : Type 0 where
  pub message_id : String
  pub room_id : String
  pub agent_id : String
  pub agent_name : String
  pub content : String
  pub reply_to_message : Option String
  pub metadata : Json
  pub created_at : ℕ
  pub seq : ℕ

pub record SessionRow : Type 0 where
  pub session_id : String
  pub agent_id : String
  pub agent_name : String
  pub capabilities : List String
  pub connected_at : ℕ
  pub disconnected_at : Option ℕ

pub record ApiKeyRow : Type 0 where
  pub tier : String
  pub label : Option String
  pub created_at : ℕ

pub record InviteMeta : Type 0 where
  pub room_id : String
  pub created_by_key : String
  pub single_use : Bool
  pub redeemed_count : ℕ
  pub revoked : Bool

pub record VoteMeta : Type 0 where
  pub vote_id : String
  pub room_id : String
  pub title : String
  pub description : Option String
  pub options : List String
  pub created_by : String
  pub created_at : ℕ
  pub closes_at : Option ℕ
  pub status : String
  pub eligible_voters : ℕ

pub record BallotRow : Type 0 where
  pub vote_id : String
  pub agent_id : String
  pub agent_name : String
  pub option_index : ℕ
  pub cast_at : ℕ

pub record SubscriptionRow : Type 0 where
  pub sub : Subscription
  pub owner_key : String
  pub secret : String

pub record DeliveryRow : Type 0 where
  pub delivery_id : String
  pub subscription_id : String
  pub message_seq : ℕ
  pub message_id : String
  pub next_attempt_at : ℕ
  pub attempts : ℕ
  pub last_error : Option String

-- The tables, in the order of the schema, and the cache of the grants. A table whose key is one
-- text and that is read by this key only is a dictionary.
pub record Store : Type 0 where
  pub api_keys : Dict ApiKeyRow
  pub identities : Dict String
  pub rooms : List RoomRow
  pub messages : List MessageRow
  pub sequences : Dict ℕ
  pub sessions : Dict SessionRow
  pub votes : List VoteMeta
  pub ballots : List BallotRow
  pub eligible : List (String × String)
  pub tasks : List TaskInfo
  pub subscriptions : List SubscriptionRow
  pub deliveries : List DeliveryRow
  pub invites : Dict InviteMeta
  pub room_grants : List (String × String)
  pub grants : Dict (List String)

pub data StoreError : Type 0 where
  db : StoreError
  room_name_taken : String → StoreError
  invalid_room_name : String → StoreError
  vote_not_found : StoreError
  vote_closed : StoreError
  already_voted : StoreError

pub data DestroyRoomError : Type 0 where
  destroy_not_found : DestroyRoomError
  destroy_access_denied : DestroyRoomError
  destroy_protected_room : DestroyRoomError

pub data RenameRoomError : Type 0 where
  rename_not_found : RenameRoomError
  rename_access_denied : RenameRoomError
  rename_protected_room : RenameRoomError
  invalid_name : String → RenameRoomError
  name_taken : String → RenameRoomError

-- `strftime('%Y-%m-%dT%H:%M:%fZ')` and `format("%Y-%m-%dT%H:%M:%S%.3fZ")` keep milliseconds.
abbrev pub to_millis : ℕ → ℕ
to_millis t = t / 1000000 * 1000000

-- SQL's NULL is the legacy marker, and the empty key is no key.
unfoldable pub map_owner_key : Option String → Option String
map_owner_key none = some legacy_unowned_owner_key
map_owner_key (some key) = if key == "" then none else some key

unfoldable pub map_room_row : RoomRow → Room
unfolding map_owner_key
map_room_row r = record {
  room_id = r.room_id;
  name = r.name;
  description = r.description;
  parent_id = r.parent_id;
  created_at = r.created_at;
  created_by = r.created_by;
  visibility = r.visibility;
  owner_key = map_owner_key r.owner_key;
  last_activity = none;
  member_count = none;
  encrypted = r.encrypted;
}

unfoldable pub map_message_row : MessageRow → ChatMessage
map_message_row r = record {
  message_id = r.message_id;
  room_id = r.room_id;
  agent_id = r.agent_id;
  agent_name = r.agent_name;
  content = r.content;
  reply_to_message = r.reply_to_message;
  metadata = r.metadata;
  timestamp = r.created_at;
  seq = r.seq;
}

-- The tables as the schema creates them.
abbrev pub created_tables : Store
created_tables = record {
  api_keys = [];
  identities = [];
  rooms = [];
  messages = [];
  sequences = [];
  sessions = [];
  votes = [];
  ballots = [];
  eligible = [];
  tasks = [];
  subscriptions = [];
  deliveries = [];
  invites = [];
  room_grants = [];
  grants = [];
}
