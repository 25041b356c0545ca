-- ===== src/Handler/Tests.antt =====
-- Messages into an encrypted room.
use cowchat4win.Base.{String, true, false, none, some, List, [], ◌∷◌, Option}
use cowchat4win.Protocol.{null, Frame}
use cowchat4win.Broker.{Broker}
use cowchat4win.Broker
use cowchat4win.RateLimit
use cowchat4win.Store.{RoomRow, created_tables}
use cowchat4win.Handler.{Server, SendMessagePayload}
use cowchat4win.Handler.Sealed.{SendCall, sends, thinks, IsSealed, send_run, ciphertext_only}

-- A channel that keeps what was sent.
abbrev keep : List Frame → Frame → Option (List Frame)
keep sent frame = some (frame ∷ sent)

abbrev secret_room : RoomRow
secret_room = record {
  room_id = "r";
  name = "barn";
  description = none;
  parent_id = none;
  created_by = some "a";
  created_at = 0;
  visibility = "private";
  owner_key = some "k";
  encrypted = true;
}

abbrev server : Server (List Frame)
server = record {
  broker = Broker.new [] (("r", "a" ∷ "b" ∷ []) ∷ []);
  store = record created_tables { rooms = secret_room ∷ [] };
  limiter = RateLimit.new;
  enqueuing = [];
}

abbrev say : String → SendMessagePayload
say content = record {
  room_id = "r";
  content = content;
  reply_to = none;
  metadata = null;
  mentions = "b" ∷ [];
}

abbrev some_calls : List SendCall
some_calls =
    sends 1 "m1" (some (say "Moo")) "a" "ann" "k"
    ∷ sends 2 "m2" (some (say "cow1:x9Tq")) "a" "ann" "k"
    ∷ thinks 3 "m3" (some (record { room_id = "r"; content = "Hm" })) "b" "bob" "k"
    ∷ sends 4 "m4" none "a" "ann" "k"
    ∷ []

ciphertext_only_example : IsSealed (send_run keep false server some_calls).store
ciphertext_only_example = ciphertext_only keep false server some_calls tt
