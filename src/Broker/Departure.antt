-- ===== src/Broker/Departure.antt =====
-- `leave_all_rooms`, the cleanup after a disconnect.
use cowchat4win.Base.Dict.{Dict}
use cowchat4win.Broker.{Broker}
