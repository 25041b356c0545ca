-- ===== src/Broker/Delivery.antt =====
-- How frames reach the agents. `try_send` is tokio's bounded channel: the queue with the frame, or
-- nothing where it is full or closed; the agent is then told to disconnect.
use cowchat4win.Base.{
  String, ◌≡◌, refl, ap, ◌∙◌, true, false, Option, none, some, List, [], ◌∷◌, ◌==◌, arith, eq_iff,
  if◌then◌else◌, Bool-cases, Option-cases, inl, inr,
}
use cowchat4win.Base.Dict.{lookup, insert, lookup-insert}
use cowchat4win.Protocol.{Frame, FrameType, event, obj, field, end, text}
use cowchat4win.Models.{ChatMessage, message_value}
use cowchat4win.Broker.{Broker, AgentConnection, is_agent_in_room}

-- The frame that a mentioned agent gets.
abbrev pub mention_frame : ChatMessage → String → Frame
mention_frame message room_id =
    event FrameType.mention
      (obj (field "room_id" (text room_id) (field "message" (message_value message) end)))

module _ {Sender : Type 0} (try_send : Sender → Frame → Option Sender) where
  unfoldable pub deliver : Frame → AgentConnection Sender → AgentConnection Sender
  deliver frame a = elim (try_send a.sender frame) [
    | some s ↦ record a { sender = s }
    | none ↦ record a { disconnect = true }
  ]

  unfoldable pub send_to_agent : String → Frame → Broker Sender → Broker Sender
  unfolding deliver
  send_to_agent agent_id frame b = elim (lookup agent_id b.agents) [
    | none ↦ b
    | some a ↦ record b { agents = insert agent_id (deliver frame a) b.agents }
  ]

  unfoldable pub send_except : String → List String → Frame → Broker Sender → Broker Sender
  unfolding send_to_agent
  send_except sender_id [] frame b = b
  send_except sender_id (m ∷ ms) frame b =
      send_except sender_id ms frame (if m == sender_id then b else send_to_agent m frame b)

  unfoldable pub send_each : List String → Frame → Broker Sender → Broker Sender
  unfolding send_to_agent
  send_each [] frame b = b
  send_each (m ∷ ms) frame b = send_each ms frame (send_to_agent m frame b)

  unfoldable pub broadcast_to_room : String → String → Frame → Broker Sender → Broker Sender
  unfolding send_except
  broadcast_to_room room_id sender_id frame b = elim (lookup room_id b.room_members) [
    | none ↦ b
    | some members ↦ send_except sender_id members frame b
  ]

  unfoldable pub broadcast_to_room_all : String → Frame → Broker Sender → Broker Sender
  unfolding send_each
  broadcast_to_room_all room_id frame b = elim (lookup room_id b.room_members) [
    | none ↦ b
    | some members ↦ send_each members frame b
  ]

  unfoldable pub send_if_member : List String → String → Frame → Broker Sender → Broker Sender
  unfolding send_to_agent
  send_if_member [] room_id frame b = b
  send_if_member (a ∷ rest) room_id frame b =
      send_if_member rest room_id frame
        (if is_agent_in_room b a room_id then send_to_agent a frame b else b)

  unfoldable pub send_mentions : List String → ChatMessage → String → Broker Sender → Broker Sender
  unfolding send_if_member
  send_mentions mentions message room_id b =
      send_if_member mentions room_id (mention_frame message room_id) b

  -- A connection after one frame, where there is one.
  abbrev pub delivered : Frame → Option (AgentConnection Sender) → Option (AgentConnection Sender)
  delivered frame none = none
  delivered frame (some a) = some (deliver frame a)

  lookup-send_to_agent :
      (id asked : String) (frame : Frame) (b : Broker Sender)
      → lookup asked (send_to_agent id frame b).agents
        ≡ (if id == asked then delivered frame (lookup asked b.agents) else lookup asked b.agents)
  unfolding send_to_agent
  lookup-send_to_agent id asked frame b = elim (Option-cases (lookup id b.agents)) [
    | inl e ↦ ground (arith, e, eq_iff id asked)
    | inr (a, e) ↦
        ground (arith, e, eq_iff id asked, lookup-insert id asked (deliver frame a) b.agents)
  ]

  room_members-send_to_agent :
      (id : String) (frame : Frame) (b : Broker Sender)
      → (send_to_agent id frame b).room_members ≡ b.room_members
  unfolding send_to_agent
  room_members-send_to_agent id frame b = ground arith

  lookup-send_if_member :
      (asked room_id : String) (ids : List String) (frame : Frame) (b : Broker Sender)
      → is_agent_in_room b asked room_id ≡ false
      → lookup asked (send_if_member ids room_id frame b).agents ≡ lookup asked b.agents
  unfolding send_if_member is_agent_in_room
  lookup-send_if_member asked room_id [] frame b out = refl
  lookup-send_if_member asked room_id (a ∷ ids) frame b out =
      elim (Bool-cases (is_agent_in_room b a room_id)) [
        | inr e ↦ rw (e, send_if_member) (lookup-send_if_member asked room_id ids frame b out)
        | inl e ↦
            let b' : Broker Sender = send_to_agent a frame b in
            let still_out : is_agent_in_room b' asked room_id ≡ false =
              ap (λ rooms. is_agent_in_room (record b { room_members = rooms }) asked room_id)
                (room_members-send_to_agent a frame b)
              ∙ out in
            rw (e, send_if_member)
              (ground (
                arith,
                e,
                out,
                eq_iff a asked,
                lookup-send_to_agent a asked frame b,
                lookup-send_if_member asked room_id ids frame b' still_out,
              ))
      ]

  -- Whoever is mentioned, an agent outside the room gets nothing of the message.
  pub mentions_stay_in_room :
      (mentions : List String) (message : ChatMessage) (room_id outsider : String)
      (b : Broker Sender)
      → is_agent_in_room b outsider room_id ≡ false
      → lookup outsider (send_mentions mentions message room_id b).agents ≡ lookup outsider b.agents
  unfolding send_mentions
  mentions_stay_in_room mentions message room_id outsider b out =
      lookup-send_if_member outsider room_id mentions (mention_frame message room_id) b out
