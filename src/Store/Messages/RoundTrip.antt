-- ===== src/Store/Messages/RoundTrip.antt =====
-- A message that is stored is read back.
use cowchat4win.Base.{ℕ, String, Bool, ◌&&◌, ltb}
use cowchat4win.Store.{Store, MessageRow}
use cowchat4win.Store.Messages.{in_room}

abbrev newer : String → ℕ → MessageRow → Bool
newer k n r = in_room k r && ltb n r.seq
