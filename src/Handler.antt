-- ===== src/Handler.antt =====
-- crates/cowchat-server/src/handler.rs: what a member's message does to the broker, the store and the
-- rate limiter. A payload is what serde made of it, if it could; an error is told by its code; the
-- tasks that are spawned to enqueue webhooks are kept as the messages that they are for.
pub mod Sealed
pub mod Tests
use Prim.Native.Char.{Char, code}
use Prim.Native.String.{len}
use cowchat4win.Base.{
  ℕ, ◌+◌, String, Bool, true, false, not, ◌&&◌, ◌||◌, Option, none, some, List, [], ◌∷◌, ◌++◌, ◌==◌,
  if◌then◌else◌, is_empty, ltb, eqb, Result, ok, err,
}
use cowchat4win.Base.Dict.{lookup, insert}
use cowchat4win.Protocol.{
  Json, null, or_null, text, texts, num, obj, arr, Items, nil, cons, field, end, Frame, FrameType,
  ErrorCode, event,
}
use cowchat4win.Models.{ChatMessage, AgentInfo, Room, message_value}
use cowchat4win.Access.{can_access_room}
use cowchat4win.RateLimit.{RateLimiter, TierLimits, for_tier, check_message_rate, increment_message}
use cowchat4win.Broker.{
  AgentConnection, Broker, is_agent_in_room, turn_holder, get_room_members, advance_turn_from,
}
use cowchat4win.Broker.Delivery.{broadcast_to_room, broadcast_to_room_all, send_mentions}
use cowchat4win.Store.{Store}
use cowchat4win.Store.Rooms.{get_room}
use cowchat4win.Store.Keys.{get_key_tier}
use cowchat4win.Store.Invites.{key_has_grant}
use cowchat4win.Store.Messages.{insert_message, get_history_filtered, room_tip}

pub record SendMessagePayload : Type 0 where
  pub room_id : String
  pub content : String
  pub reply_to : Option String
  pub metadata : Json
  pub mentions : List String

pub record ThinkingPayload : Type 0 where
  pub room_id : String
  pub content : String

pub record Server (Sender : Type 0) : Type 0 where
  pub broker : Broker Sender
  pub store : Store
  pub limiter : RateLimiter
  pub enqueuing : List ChatMessage

unfoldable pub starts_with : String → String → Bool
starts_with String.[] s = true
starts_with (String.◌∷◌ c p) String.[] = false
starts_with (String.◌∷◌ c p) (String.◌∷◌ d s) = eqb (code c) (code d) && starts_with p s

unfoldable pub is_ciphertext : String → Bool
unfolding starts_with
is_ciphertext s = starts_with "cow1:" s

unfoldable pub room_is_encrypted : String → Store → Bool
room_is_encrypted room_id s = elim (get_room room_id s) [ none ↦ false | some r ↦ r.encrypted ]

unfoldable pub reject_plaintext_in_encrypted_room : String → String → Store → Option ErrorCode
unfolding room_is_encrypted is_ciphertext
reject_plaintext_in_encrypted_room content room_id s =
    if room_is_encrypted room_id s && not (is_ciphertext content)
    then some ErrorCode.plaintext_in_encrypted_room
    else none

unfoldable pub reject_oversized : String → TierLimits → Option ErrorCode
reject_oversized content limits =
    if ltb limits.max_message_bytes (len content) then some ErrorCode.message_too_large else none

unfoldable pub authorize_room : String → String → Bool → Store → Result Room ErrorCode
authorize_room room_id api_key no_auth s = elim (get_room room_id s) [
  | none ↦ err ErrorCode.room_not_found
  | some room ↦
      if can_access_room room api_key no_auth (key_has_grant api_key room_id s)
      then ok room
      else err ErrorCode.access_denied
]

-- The size and the rate of a message, where there is a key to count for.
unfoldable pub check_limits :
    ℕ → String → String → Bool → Store → RateLimiter → Option ErrorCode × RateLimiter
unfolding reject_oversized
check_limits now content api_key no_auth s limiter =
    if no_auth || api_key == ""
    then (none, limiter)
    else let tier : String = elim (get_key_tier api_key s) [ ok t ↦ t | err e ↦ "free" ] in
      let limits = for_tier tier in
      elim (reject_oversized content limits) [
        | some e ↦ (some e, limiter)
        | none ↦
            let (passed, limiter') = check_message_rate now api_key limits limiter in
            ((if passed then none else some ErrorCode.rate_limit_messages), limiter')
      ]

module _ {Sender : Type 0} (try_send : Sender → Frame → Option Sender) where
  unfoldable pub broadcast_turn_changed : String → String → Broker Sender → Broker Sender
  broadcast_turn_changed room_id reason b =
      let holder = or_null (turn_holder b room_id) in
      broadcast_to_room_all try_send room_id
        (event FrameType.turn_changed (
          obj (
            field "room_id" (text room_id) (
              field "current_turn_holder" holder (
                field "turn_order" (arr (texts (get_room_members b room_id)))
                  (field "reason" (text reason) end))))))
        b

module _ {Sender : Type 0} where
  -- `agent.info.last_active = Some(now)`
  unfoldable pub touch : ℕ → String → Broker Sender → Broker Sender
  touch now agent_id b = elim (lookup agent_id b.agents) [
    | none ↦ b
    | some a ↦ record b {
      agents =
          insert agent_id (record a { info = record a.info { last_active = some now } }) b.agents;
    }
  ]

  -- The guards, the insertion and the count that a message and a thought share.
  unfoldable pub accept_message :
      ℕ
      → String
      → String
      → String
      → String
      → String
      → Option String
      → Json
      → String
      → Bool
      → Server Sender
      → Result ChatMessage ErrorCode × Server Sender
  unfolding reject_plaintext_in_encrypted_room check_limits
  accept_message now message_id room_id agent_id agent_name content reply_to metadata api_key
        no_auth srv =
      if not (is_agent_in_room srv.broker agent_id room_id)
      then (err ErrorCode.not_in_room, srv)
      else elim (reject_plaintext_in_encrypted_room content room_id srv.store) [
        | some e ↦ (err e, srv)
        | none ↦
            let (refused, limiter) =
              check_limits now content api_key no_auth srv.store srv.limiter in
            elim refused [
              | some e ↦ (err e, record srv { limiter = limiter })
              | none ↦
                  let (answer, store) =
                    insert_message now message_id room_id agent_id agent_name content reply_to
                      metadata srv.store in
                  elim answer [
                    | err e ↦ (
                      err ErrorCode.internal_error,
                      record srv { limiter = limiter; store = store },
                    )
                    | ok msg ↦ (
                      ok msg,
                      record srv {
                        store = store;
                        limiter =
                            if api_key == ""
                            then limiter
                            else increment_message now api_key limiter;
                      },
                    )
                  ]
            ]
      ]

module _ {Sender : Type 0} (try_send : Sender → Frame → Option Sender) where
  unfoldable pub handle_send_message :
      ℕ
      → String
      → Option SendMessagePayload
      → String
      → String
      → String
      → Bool
      → Server Sender
      → Result Json ErrorCode × Server Sender
  unfolding accept_message touch broadcast_turn_changed
  handle_send_message now message_id payload agent_id agent_name api_key no_auth srv =
      elim payload [
        | none ↦ (err ErrorCode.invalid_payload, srv)
        | some p ↦
            let (answer, srv') =
              accept_message now message_id p.room_id agent_id agent_name p.content p.reply_to
                p.metadata api_key no_auth srv in
            elim answer [
              | err e ↦ (err e, srv')
              | ok msg ↦
                  let active = touch now agent_id srv'.broker in
                  let told =
                    broadcast_to_room try_send p.room_id agent_id
                      (event FrameType.message_received (message_value msg)) active in
                  let mentioned =
                    if is_empty p.mentions
                    then told
                    else send_mentions try_send p.mentions msg p.room_id told in
                  let passed = (advance_turn_from p.room_id agent_id mentioned).1 in
                  (
                    ok (message_value msg),
                    record srv' {
                      broker = broadcast_turn_changed try_send p.room_id "message_sent" passed;
                      enqueuing = srv'.enqueuing ++ msg ∷ [];
                    },
                  )
            ]
      ]

  -- A thought passes no turn.
  unfoldable pub handle_thinking :
      ℕ
      → String
      → Option ThinkingPayload
      → String
      → String
      → String
      → Bool
      → Server Sender
      → Result Json ErrorCode × Server Sender
  unfolding accept_message
  handle_thinking now message_id payload agent_id agent_name api_key no_auth srv = elim payload [
    | none ↦ (err ErrorCode.invalid_payload, srv)
    | some p ↦
        let (answer, srv') =
          accept_message now message_id p.room_id agent_id agent_name p.content none
            (obj (field "type" (text "thinking") end)) api_key no_auth srv in
        elim answer [
          | err e ↦ (err e, srv')
          | ok msg ↦ (
            ok (message_value msg),
            record srv' {
              broker =
                  broadcast_to_room try_send p.room_id agent_id
                    (event FrameType.thinking (message_value msg)) srv'.broker;
              enqueuing = srv'.enqueuing ++ msg ∷ [];
            },
          )
        ]
  ]
