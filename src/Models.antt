-- ===== src/Models.antt =====
-- The records of crates/cowchat-core/src/models.rs that the server's state and events carry. A
-- `DateTime<Utc>` is a number of nanoseconds since the epoch.
use cowchat4win.Base.{ℕ, String, Bool, Option, List, [], ◌∷◌}
use cowchat4win.Protocol.{
  Json, text, num, instant, obj, field, end, opt_field, arr, texts, Items, nil, cons,
}

pub record AgentInfo : Type 0 where
  pub agent_id : String
  pub name : String
  pub capabilities : List String
  pub connected_at : Option ℕ
  pub last_active : Option ℕ
  pub status : Option String
  pub status_detail : Option String
  pub progress : Option ℕ

pub record Room : Type 0 where
  pub room_id : String
  pub name : String
  pub description : Option String
  pub parent_id : Option String
  pub created_at : ℕ
  pub created_by : Option String
  pub visibility : String
  pub owner_key : Option String
  pub last_activity : Option ℕ
  pub member_count : Option ℕ
  pub encrypted : Bool

pub record ChatMessage : Type 0 where
  pub message_id : String
  pub room_id : String
  pub agent_id : String
  pub agent_name : String
  pub content : String
  pub reply_to_message : Option String
  pub metadata : Json
  pub timestamp : ℕ
  pub seq : ℕ

-- `serde_json::to_value` of a message, its fields in declaration order.
unfoldable pub message_value : ChatMessage → Json
message_value m = obj (
    field "message_id" (text m.message_id) (
      field "room_id" (text m.room_id) (
        field "agent_id" (text m.agent_id) (
          field "agent_name" (text m.agent_name) (
            field "content" (text m.content) (
              opt_field "reply_to_message" text m.reply_to_message (
                field "metadata" m.metadata
                  (field "timestamp" (instant m.timestamp) (field "seq" (num m.seq) end)))))))))

pub record VoteTally : Type 0 where
  pub option_index : ℕ
  pub option_text : String
  pub count : ℕ

pub record BallotEntry : Type 0 where
  pub agent_id : String
  pub agent_name : String
  pub option_index : ℕ

pub record VoteResultPayload : Type 0 where
  pub vote_id : String
  pub room_id : String
  pub title : String
  pub options : List String
  pub tally : List VoteTally
  pub ballots : List BallotEntry
  pub total_votes : ℕ
  pub eligible_voters : ℕ

pub record Subscription : Type 0 where
  pub subscription_id : String
  pub room_id : String
  pub webhook_url : String
  pub kinds : List String
  pub only_from : Option String
  pub not_from : Option String
  pub exclude_thinking : Bool
  pub since_seq : ℕ
  pub last_delivered_seq : ℕ
  pub status : String
  pub failure_count : ℕ
  pub created_at : ℕ

pub record TaskInfo : Type 0 where
  pub task_id : String
  pub room_id : String
  pub title : String
  pub description : Option String
  pub status : String
  pub assignee : Option String
  pub created_by : String
  pub created_at : ℕ
  pub updated_at : Option ℕ
  pub note : Option String

tally_items : List VoteTally → Items
tally_items [] = nil
tally_items (t ∷ ts) =
    cons
      (obj (
        field "option_index" (num t.option_index)
          (field "option_text" (text t.option_text) (field "count" (num t.count) end))))
      (tally_items ts)

ballot_items : List BallotEntry → Items
ballot_items [] = nil
ballot_items (b ∷ bs) =
    cons
      (obj (
        field "agent_id" (text b.agent_id)
          (field "agent_name" (text b.agent_name) (field "option_index" (num b.option_index) end))))
      (ballot_items bs)

-- `serde_json::to_value` of a vote's result.
unfoldable pub result_value : VoteResultPayload → Json
unfolding tally_items ballot_items
result_value r = obj (
    field "vote_id" (text r.vote_id) (
      field "room_id" (text r.room_id) (
        field "title" (text r.title) (
          field "options" (arr (texts r.options)) (
            field "tally" (arr (tally_items r.tally)) (
              field "ballots" (arr (ballot_items r.ballots)) (
                field "total_votes" (num r.total_votes)
                  (field "eligible_voters" (num r.eligible_voters) end))))))))
