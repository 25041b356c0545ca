-- ===== src/Tombstones.antt =====
-- The bounded cache of destroyed rooms. crates/cowchat-server/src/broker.rs
-- (`RoomLifecycleState::prune`) and crates/cowchat-server/src/reconnect.rs
-- (`DestroyedRoomCache::prune`) each write it out, with constants of their own, which are
-- arguments here. An `Instant` is a number of nanoseconds, and `Instant::duration_since` stops
-- at zero, as `-` does.
pub mod Laws
pub mod Buried
use cowchat4win.Base.{
  ℕ, zero, suc, ◌-◌, String, Option, none, some, [], ◌∷◌, true, false, ltb, leb, if◌then◌else◌,
  length,
}
use cowchat4win.Base.Dict.{Dict, insert, remove, retain_values}

abbrev pub nanos_per_sec : ℕ
nanos_per_sec = 1000000000

-- `iter().min_by_key(|(_, at)| **at)`: the first of the least entries.
unfoldable pub oldest : Dict ℕ → Option (String × ℕ)
oldest [] = none
oldest ((k, at) ∷ m) = elim (oldest m) [
  | none ↦ some (k, at)
  | some (j, least) ↦ if leb at least then some (k, at) else some (j, least)
]

-- `while self.rooms.len() > MAX { … }`; each round removes an entry, so the length is fuel enough.
unfoldable pub evict : ℕ → ℕ → Dict ℕ → Dict ℕ
evict limit zero m = m
evict limit (suc fuel) m = elim (ltb limit (length m)) [
  | false ↦ m
  | true ↦ elim (oldest m) [ none ↦ m | some (k, at) ↦ evict limit fuel (remove k m) ]
]

unfoldable pub prune : ℕ → ℕ → ℕ → Dict ℕ → Dict ℕ
unfolding evict
prune ttl limit now m =
    let live = retain_values (λ at. ltb (now - at) ttl) m in evict limit (length live) live

-- `tombstone` and `insert`: prune, insert, prune again, at one reading of the clock.
unfoldable pub bury : ℕ → ℕ → ℕ → String → Dict ℕ → Dict ℕ
bury ttl limit now room_id m = prune ttl limit now (insert room_id now (prune ttl limit now m))
