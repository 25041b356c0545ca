-- ===== src/Webhooks/Worker.antt =====
-- crates/cowchat-server/src/webhooks.rs: the tasks that enqueue messages, and the worker with its
-- deliveries. A task is a value, and what it does under one lock of the store is one step; the steps
-- of different tasks come in any order. The times at which the worker wakes are not modelled: its
-- loop may begin a round whenever no delivery is under way.
use cowchat4win.Base.{
  ℕ, zero, suc, ◌+◌, ◌-◌, ◌*◌, String, Bool, true, false, not, Option, none, some, List, [], ◌∷◌,
  ◌++◌, ◌==◌, if◌then◌else◌, map, is_empty, get_elem?,
}
use cowchat4win.Models.{ChatMessage}
use cowchat4win.Tombstones.{nanos_per_sec}
use cowchat4win.Store.{Store, SubscriptionRow}
use cowchat4win.Store.Messages.{get_message}
use cowchat4win.Store.Subscriptions.{
  PendingDelivery, get_subscription, list_active_subscriptions_for_room, enqueue_delivery,
  delete_delivery, reschedule_delivery, set_subscription_status, advance_subscription_cursor,
  load_due_deliveries,
}
use cowchat4win.Store.Subscriptions.Queue.{QueueCall, queue_step}
use cowchat4win.Webhooks.{Outcome, blocked, delivered, failed, matches_filter, retry_schedule_secs}

-- A spawned task: about to list the subscriptions, or with those that are left of its list and the
-- number of deliveries that it queued.
pub data Enqueuing : Type 0 where
  listing : ChatMessage → Enqueuing
  queuing : ChatMessage → ℕ → ℕ → List SubscriptionRow → Enqueuing

-- Its next step at a time, with a new id: how it goes on, whether it wakes the worker, and the store.
unfoldable pub enqueue_step : ℕ → String → Enqueuing → Store → Option Enqueuing × Bool × Store
enqueue_step now id (listing msg) s =
    (some (queuing msg now 0 (list_active_subscriptions_for_room msg.room_id s)), false, s)
enqueue_step now id (queuing msg since zero []) s = (none, false, s)
enqueue_step now id (queuing msg since (suc n) []) s = (none, true, s)
enqueue_step now id (queuing msg since n (r ∷ rs)) s =
    if matches_filter r.sub msg
    then (let (new, s') =
          enqueue_delivery id r.sub.subscription_id msg.seq msg.message_id since s in
        (some (queuing msg since (if new then suc n else n) rs), false, s'))
    else (some (queuing msg since n rs), false, s)

-- A delivery: before the look at its subscription, before the look at its message, about to be
-- dropped, waiting for the network, delivered, and given up.
pub data Flight : Type 0 where
  looking finding dropping sending advancing giving_up : PendingDelivery → Flight

-- Its next step, `outcome` being what the network answers.
unfoldable pub flight_step : ℕ → Outcome → Flight → Store → Option Flight × Store
flight_step now outcome (looking d) s = elim (get_subscription d.subscription_id s) [
  | none ↦ (some (dropping d), s)
  | some r ↦
      if not (r.sub.status == "active") then (some (dropping d), s) else (some (finding d), s)
]
flight_step now outcome (finding d) s = elim (get_message d.message_id s) [
  | none ↦ (some (dropping d), s)
  | some msg ↦ (some (sending d), s)
]
flight_step now outcome (dropping d) s = (none, delete_delivery d.delivery_id s)
flight_step now blocked (sending d) s =
    (none, set_subscription_status d.subscription_id "failed" (some (d.attempts + 1)) s)
flight_step now delivered (sending d) s = (some (advancing d), delete_delivery d.delivery_id s)
flight_step now (failed why) (sending d) s =
    let new_attempts = d.attempts + 1 in
    elim (get_elem? retry_schedule_secs (new_attempts - 1)) [
      | none ↦ (some (giving_up d), delete_delivery d.delivery_id s)
      | some delay ↦
          (none, reschedule_delivery d.delivery_id (now + delay * nanos_per_sec) new_attempts why s)
    ]
flight_step now outcome (advancing d) s =
    (none, advance_subscription_cursor d.subscription_id d.message_seq s)
flight_step now outcome (giving_up d) s =
    (none, set_subscription_status d.subscription_id "failed" (some (d.attempts + 1)) s)

pub record Hooks : Type 0 where
  pub store : Store
  pub tasks : List Enqueuing
  pub flights : List Flight
  pub notified : Bool

-- `enqueue_for_message`, a step of a task, a round of the worker, its end of a sleep by a
-- notification, a step of a delivery, another call on the queue, and `set_subscription_status`.
pub data HookStep : Type 0 where
  spawns : ChatMessage → HookStep
  enqueues : ℕ → ℕ → String → HookStep
  loads : ℕ → HookStep
  wakes : HookStep
  flies : ℕ → ℕ → Outcome → HookStep
  calls : QueueCall → HookStep
  sets_status : String → String → Option ℕ → HookStep

-- What becomes of the task at a place: it goes on, or it is gone.
abbrev pub placed {ℓ} : {A : Type ℓ} → ℕ → Option A → List A → List A
placed i next [] = []
placed zero none (x ∷ xs) = xs
placed zero (some y) (x ∷ xs) = y ∷ xs
placed (suc i) next (x ∷ xs) = x ∷ placed i next xs

unfoldable pub hook_step : Hooks → HookStep → Hooks
unfolding enqueue_step flight_step
hook_step h (spawns msg) = record h { tasks = h.tasks ++ listing msg ∷ [] }
hook_step h (enqueues i now id) = elim (get_elem? h.tasks i) [
  | none ↦ h
  | some task ↦
      let (next, notifies, s') = enqueue_step now id task h.store in
      record h {
        store = s';
        tasks = placed i next h.tasks;
        notified = if notifies then true else h.notified;
      }
]
hook_step h (loads now) =
    if is_empty h.flights
    then record h { flights = map looking (load_due_deliveries now 32 h.store) }
    else h
hook_step h wakes = if is_empty h.flights then record h { notified = false } else h
hook_step h (flies i now outcome) = elim (get_elem? h.flights i) [
  | none ↦ h
  | some flight ↦
      let (next, s') = flight_step now outcome flight h.store in
      record h { store = s'; flights = placed i next h.flights }
]
hook_step h (calls c) = record h { store = queue_step h.store c }
hook_step h (sets_status id status count) = record h {
  store = set_subscription_status id status count h.store;
}

abbrev pub hook_run : Hooks → List HookStep → Hooks
hook_run h [] = h
hook_run h (c ∷ cs) = hook_run (hook_step h c) cs
