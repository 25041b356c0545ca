-- ===== src/Protocol.antt =====
-- crates/cowchat-core/src/protocol.rs and error.rs: frames, their types and error codes. A payload
-- is a `serde_json::Value`; its numbers here are the naturals, which is all that the server writes,
-- and `instant` is the text that chrono writes for a timestamp; no code modelled here reads one.
-- The random `id` of a frame that the server makes is not modelled.
use cowchat4win.Base.{ℕ, String, Bool, Option, none, some, List, [], ◌∷◌, ◌==◌, if◌then◌else◌}

mutual
  pub data Json : Type 0 where
    null : Json
    boolean : Bool → Json
    num : ℕ → Json
    text : String → Json
    instant : ℕ → Json
    arr : Items → Json
    obj : Fields → Json

  pub data Items : Type 0 where
    nil : Items
    cons : Json → Items → Items

  pub data Fields : Type 0 where
    end : Fields
    field : String → Json → Fields → Fields

unfoldable pub get_field : String → Fields → Option Json
get_field k end = none
get_field k (field j v fs) = if j == k then some v else get_field k fs

-- `Value::get` on an object, and `Value::as_str`.
unfoldable pub get : String → Json → Option Json
unfolding get_field
get k (obj fs) = get_field k fs
get k v = none

unfoldable pub as_str : Json → Option String
as_str (text s) = some s
as_str v = none

pub data FrameType : Type 0 where
  register ping create_room join_room leave_room rename_room destroy_room : FrameType
  send_message get_history list_rooms list_agents room_info room_tip : FrameType
  create_vote cast_vote get_vote_status list_votes : FrameType
  elect_leader decline_election decision : FrameType
  assign_task update_task list_tasks : FrameType
  set_typing set_presence thinking : FrameType
  subscribe unsubscribe list_subscriptions enable_subscription : FrameType
  create_invite revoke_invite : FrameType
  ok error pong message_received mention agent_joined agent_left : FrameType
  room_created room_updated room_destroyed presence_update : FrameType
  history_result room_list agent_list room_info_result room_tip_result : FrameType
  vote_created vote_result : FrameType
  election_started leader_elected leader_cleared decision_made : FrameType
  task_assigned task_updated task_list typing_indicator turn_changed : FrameType

pub data ErrorCode : Type 0 where
  not_registered room_not_found not_in_room already_in_room invalid_payload : ErrorCode
  agent_id_taken internal_error room_name_taken unauthorized vote_not_found : ErrorCode
  vote_closed already_voted invalid_option not_leader election_in_progress : ErrorCode
  no_election_active rate_limit_agents rate_limit_messages rate_limit_rooms : ErrorCode
  message_too_large unsupported_protocol access_denied task_not_found : ErrorCode
  invite_not_found plaintext_in_encrypted_room : ErrorCode

pub record Frame : Type 0 where
  pub reply_to : Option String
  pub frame_type : FrameType
  pub payload : Json

-- `Frame::event`
abbrev pub event : FrameType → Json → Frame
event t payload = record { reply_to = none; frame_type = t; payload = payload }

-- `payload.get("room_id").and_then(as_str)`
room_id_field : Json → Option String
unfolding get as_str
room_id_field v = elim (get "room_id" v) [ none ↦ none | some j ↦ as_str j ]

-- The room of the payload itself, or of the message that it carries.
unfoldable pub frame_room_id : Frame → Option String
unfolding room_id_field get
frame_room_id frame = elim (room_id_field frame.payload) [
  | some room_id ↦ some room_id
  | none ↦ elim (get "message" frame.payload) [ none ↦ none | some message ↦ room_id_field message ]
]

-- A field that `skip_serializing_if = "Option::is_none"` leaves out.
abbrev pub opt_field {ℓ} : {A : Type ℓ} → String → (A → Json) → Option A → Fields → Fields
opt_field k f none fs = fs
opt_field k f (some a) fs = field k (f a) fs

abbrev pub texts : List String → Items
texts [] = nil
texts (s ∷ ss) = cons (text s) (texts ss)

-- An optional text that is written as `null` when it is absent.
abbrev pub or_null : Option String → Json
or_null none = null
or_null (some s) = text s
