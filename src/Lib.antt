-- ===== src/Lib.antt =====
-- Cowchat: a chat server through which software agents work together. This library models the
-- server of crates/cowchat-server and proves what its parts promise.
--
-- The server keeps rooms, and agents that join them. The broker knows who is in which room and
-- passes an advisory turn token round; votes and elections run among a room's members; tasks are
-- kept for a room; the access rules say who may enter; the rate limiter counts what each API key
-- does; the store keeps rooms, messages, votes, tasks, subscriptions, invites and keys in SQLite;
-- a stash keeps what an agent misses while it is disconnected; frames carry what is said to the
-- clients.
--
-- - Base, Base/Dict, Base/DictAll, Base/Tables: the shared names, list operations of Rust,
--   `DashMap`s and `HashMap`s as association lists with `String` keys, and SQL statements over
--   lists of rows.
-- - Protocol, Models: crates/cowchat-core/src/{protocol,error,models}.rs. `Json` is the payload of a
--   frame, `FrameType` and `ErrorCode` have the constructors of the source.
-- - Tombstones: the bounded cache of destroyed rooms, which broker.rs (`RoomLifecycleState`) and
--   reconnect.rs (`DestroyedRoomCache`) share; Laws and Buried say what it keeps.
-- - Broker: crates/cowchat-server/src/broker.rs, one function for each method, under its name. Seats
--   sees a room as its members and its turn; Delivery sends, with tokio's `try_send` a parameter;
--   Turns, History, Destroyed and Departure prove.
-- - Access: crates/cowchat-server/src/connection.rs.
-- - RateLimit: crates/cowchat-server/src/rate_limit.rs; Signup, Messages and Quota prove.
-- - Voting: crates/cowchat-server/src/voting.rs. Messages to the room and the store's close come back
--   as effects. Election has the elections and leaders; Tally, Ballots, Calls, Once, Complete, Leader
--   and Cleanup prove. A timer is the function that it runs, called at any time.
-- - Reconnect: crates/cowchat-server/src/reconnect.rs, with the tombstones of its own. Calls has a run
--   of calls; Entries, Bounds, Forgotten, Late, Gone and Lease prove.
-- - Store: crates/cowchat-server/src/store.rs, the tables of SQLite as lists of rows and
--   dictionaries, and the grant cache beside them. Names, Rooms, Messages, Destruction, Keys,
--   Invites, Votes and Subscriptions have the operations; their children prove: Unique, Run and
--   Listing of rooms, Sequence, Consecutive, Paging and RoundTrip of messages, Granted, Erased,
--   Redeem, Mirror, Final, Queue and Batch of the others. Votes has `VoteManager::new` of voting.rs
--   too, and Restored proves what it finds.
-- - Webhooks: crates/cowchat-server/src/webhooks.rs; Worker has the tasks that enqueue, the worker
--   and its deliveries, where each lock of the store is one step and the steps come in any order:
--   `enqueue_step` is a step of `enqueue_for_message`, `flight_step` one of `process_delivery` and
--   `hook_step` one of them all, with a round of `delivery_worker`. Addresses, Retries, Cursor and
--   Flights prove.
-- - Tasks: crates/cowchat-server/src/tasks.rs, over an interface to its store; Restart fills it with
--   the tables of Store, whose rows are in Rows.
-- - Handler: crates/cowchat-server/src/handler.rs, what sends and thoughts do to the broker, the
--   store and the rate limiter together, with `is_ciphertext` of crates/cowchat-core/src/crypto.rs;
--   Sealed proves.
-- - Each Tests module runs the code and applies the theorems to concrete inputs.
--
-- State is explicit: a method takes its object and returns it. The clock is an argument, a number
-- of nanoseconds; a subtraction of instants stops at zero, as `Instant::duration_since` does. A
-- method that holds a lock throughout is one step. Other methods are one step too where nothing
-- else is said: `advance_turn_from`, which reads the members before it sets the turn, and a handler,
-- which tests the rate of messages before it counts one, are taken to run without another between.
-- `evict`, the loop that brings a cache within its limit, takes the number of entries as fuel: each
-- round removes one, and `length-evict-le` shows that the fuel is enough. Counters are unbounded
-- numbers.
--
-- Of SQLite the model has the constraints and triggers of the schema; a transaction is one step, and
-- disk errors, the migrations and the opening of the file are not modelled. Columns hold their values:
-- a time is its milliseconds, and JSON is not printed and parsed.
--
-- Of a webhook the URL parser, the resolver and the HTTP request are parameters; a delivery waits
-- for them while other steps go on. The times at which the worker sleeps are not modelled. `settle`
-- is what an outcome does where nothing comes between, and Retries is about it.
--
-- Not modelled: sockets, tokio's tasks and channels, SQLite itself, cryptography, random ids, the
-- handlers of the other commands, and the clients.
mod Base
pub mod Protocol
pub mod Models
pub mod Tombstones
pub mod Access
pub mod Store
pub mod RateLimit
pub mod Broker
pub mod Voting
pub mod Reconnect
pub mod Tasks
pub mod Webhooks
pub mod Handler
