-- ===== src/Store/Messages.antt =====
-- The messages of crates/cowchat-server/src/store.rs: sequence numbers, history and retention.
pub mod Sequence
pub mod Consecutive
pub mod Paging
pub mod RoundTrip
use cowchat4win.Base.{
  ℕ, suc, ◌+◌, ◌-◌, String, Bool, true, false, not, ◌&&◌, ◌||◌, Option, none, some, List, [], ◌∷◌,
  ◌++◌, ◌==◌, if◌then◌else◌, any, map, retain, unwrap_or, ltb, leb,
}
use Prim.Native.Nat.{max}
use cowchat4win.Base.Dict.{Dict, lookup, insert, contains_key}
use cowchat4win.Base.Tables.{find_row, delete_where, count_where, order_by, take, reverse}
use cowchat4win.Protocol.{Json}
use cowchat4win.Models.{ChatMessage}
use cowchat4win.Base.{Result, ok, err}
use cowchat4win.Store.{
  Store, RoomRow, MessageRow, ApiKeyRow, StoreError, db, to_millis, map_message_row,
}
use cowchat4win.Store.Rooms.{has_room_id}

abbrev pub has_message_id : String → MessageRow → Bool
has_message_id id r = r.message_id == id

abbrev pub in_room : String → MessageRow → Bool
in_room room_id r = r.room_id == room_id

-- `REFERENCES messages(message_id) ON DELETE SET NULL`
abbrev pub detached : (MessageRow → Bool) → List MessageRow → MessageRow → MessageRow
detached gone all r = elim r.reply_to_message [
  | none ↦ r
  | some target ↦
      if any (λ m. has_message_id target m && gone m) all
      then record r { reply_to_message = none }
      else r
]

unfoldable pub delete_messages : (MessageRow → Bool) → List MessageRow → List MessageRow
unfolding delete_where
delete_messages gone all = map (detached gone all) (delete_where gone all)

abbrev pub high_water : String → Store → ℕ
high_water room_id s = unwrap_or (lookup room_id s.sequences) 0

abbrev pub reply_ok : MessageRow → List MessageRow → Bool
reply_ok row messages = elim row.reply_to_message [
  | none ↦ true
  | some target ↦ target == row.message_id || any (has_message_id target) messages
]

-- `INSERT INTO messages`, under the table's constraints and the two triggers.
unfoldable pub insert_message_row : MessageRow → Store → Option Store
insert_message_row row s =
    if leb row.seq (high_water row.room_id s)
    then none
    else if any (has_message_id row.message_id) s.messages
    then none
    else if not (any (has_room_id row.room_id) s.rooms && reply_ok row s.messages)
    then none
    else some (record s {
      messages = s.messages ++ row ∷ [];
      sequences = insert row.room_id (max (high_water row.room_id s) row.seq) s.sequences;
    })

-- `INSERT OR IGNORE INTO room_sequences`, whose reference to the room is still checked.
unfoldable pub ensure_sequence : String → Store → Option Store
ensure_sequence room_id s =
    if contains_key room_id s.sequences
    then some s
    else if any (has_room_id room_id) s.rooms
    then some (record s { sequences = insert room_id 0 s.sequences })
    else none

unfoldable pub insert_message :
    ℕ
    → String
    → String
    → String
    → String
    → String
    → Option String
    → Json
    → Store
    → Result ChatMessage StoreError × Store
unfolding ensure_sequence insert_message_row map_message_row
insert_message now message_id room_id agent_id agent_name content reply_to_message metadata s =
    elim (ensure_sequence room_id s) [
      | none ↦ (err db, s)
      | some s₁ ↦
          let row : MessageRow = record {
            message_id = message_id;
            room_id = room_id;
            agent_id = agent_id;
            agent_name = agent_name;
            content = content;
            reply_to_message = reply_to_message;
            metadata = metadata;
            created_at = to_millis now;
            seq = suc (high_water room_id s₁);
          } in
          elim (insert_message_row row s₁) [
            | none ↦ (err db, s)
            | some s₂ ↦ (ok (map_message_row row), s₂)
          ]
    ]

unfoldable pub room_tip : String → Store → ℕ
room_tip room_id s = high_water room_id s

unfoldable pub get_message : String → Store → Option ChatMessage
unfolding find_row map_message_row
get_message message_id s = elim (find_row (has_message_id message_id) s.messages) [
  | none ↦ none
  | some r ↦ some (map_message_row r)
]

abbrev pub by_seq : MessageRow → MessageRow → Bool
by_seq a b = leb a.seq b.seq

abbrev pub by_time : MessageRow → MessageRow → Bool
by_time a b = leb a.created_at b.created_at

-- `created_at DESC`; on the reversed table, equal times have the later row first.
abbrev pub latest_first : MessageRow → MessageRow → Bool
latest_first a b = leb b.created_at a.created_at

-- The rows after the row of that id, if there is one.
unfoldable pub rows_after : String → List MessageRow → List MessageRow
rows_after id [] = []
rows_after id (r ∷ rs) = let rest = rows_after id rs in if has_message_id id r then rs else rest

unfoldable pub history_since_seq : String → ℕ → ℕ → Store → List MessageRow
history_since_seq room_id limit seq_floor s =
    take limit (order_by by_seq (retain (λ r. in_room room_id r && ltb seq_floor r.seq) s.messages))

unfoldable pub history_since_id : String → ℕ → String → Store → List MessageRow
unfolding rows_after
history_since_id room_id limit since_id s =
    take limit (order_by by_time (retain (in_room room_id) (rows_after since_id s.messages)))

abbrev pub is_before : Option ℕ → MessageRow → Bool
is_before none r = true
is_before (some t) r = ltb r.created_at (to_millis t)

unfoldable pub history_before : String → ℕ → Option ℕ → Store → List MessageRow
history_before room_id limit before s = reverse (
    take limit (
      order_by latest_first
        (reverse (retain (λ r. in_room room_id r && is_before before r) s.messages))))

unfoldable pub get_history_filtered :
    String → ℕ → Option ℕ → Option String → Option ℕ → Store → List ChatMessage
unfolding history_since_seq history_since_id history_before
get_history_filtered room_id limit before since (some seq_floor) s =
    map map_message_row (history_since_seq room_id limit seq_floor s)
get_history_filtered room_id limit before (some since_id) none s =
    map map_message_row (history_since_id room_id limit since_id s)
get_history_filtered room_id limit before none none s =
    map map_message_row (history_before room_id limit before s)

unfoldable pub get_history : String → ℕ → Option ℕ → Store → List ChatMessage
unfolding get_history_filtered
get_history room_id limit before s = get_history_filtered room_id limit before none none s

unfoldable pub get_history_since : String → ℕ → Option ℕ → Option String → Store → List ChatMessage
unfolding get_history_filtered
get_history_since room_id limit before since s =
    get_history_filtered room_id limit before since none s

-- `COALESCE(k.tier, 'free')` of the room's owning key.
abbrev pub key_tier : Option String → Dict ApiKeyRow → String
key_tier none keys = "free"
key_tier (some key) keys = elim (lookup key keys) [ none ↦ "free" | some row ↦ row.tier ]

abbrev pub purged : String → ℕ → Store → MessageRow → Bool
purged tier cutoff s m = elim (find_row (has_room_id m.room_id) s.rooms) [
  | none ↦ false
  | some room ↦ key_tier room.owner_key s.api_keys == tier && ltb m.created_at cutoff
]

-- `age` is the modifier, such as "-14 days", as a duration. The number of deleted rows comes first.
unfoldable pub purge_messages_by_tier : ℕ → String → ℕ → Store → ℕ × Store
unfolding delete_messages find_row count_where
purge_messages_by_tier now tier age s =
    let gone = purged tier (to_millis (now - age)) s in
    (count_where gone s.messages, record s { messages = delete_messages gone s.messages })
