-- ===== src/Store/Subscriptions.antt =====
-- Subscriptions and their delivery queue, of crates/cowchat-server/src/store.rs.
pub mod Queue
pub mod Batch
use cowchat4win.Base.{
  ℕ, String, Bool, true, false, not, ◌&&◌, ◌||◌, Option, none, some, List, [], ◌∷◌, ◌++◌, ◌==◌,
  if◌then◌else◌, any, map, retain, leb, ltb, eqb, Result, ok, err,
}
use cowchat4win.Base.Tables.{find_row, update_where, delete_where, order_by, take, reverse}
use cowchat4win.Models.{Subscription}
use cowchat4win.Store.{Store, SubscriptionRow, DeliveryRow, StoreError, db, to_millis}

abbrev pub has_subscription_id : String → SubscriptionRow → Bool
has_subscription_id id r = r.sub.subscription_id == id

-- The subscription that the call returns has the time of the clock, and the row its milliseconds.
unfoldable pub create_subscription :
    ℕ
    → String
    → String
    → String
    → String
    → String
    → List String
    → Option String
    → Option String
    → Bool
    → ℕ
    → Store
    → Result Subscription StoreError × Store
create_subscription now subscription_id room_id owner_key webhook_url secret kinds only_from
      not_from exclude_thinking since_seq s =
    if any (has_subscription_id subscription_id) s.subscriptions
    then (err db, s)
    else let sub : Subscription = record {
      subscription_id = subscription_id;
      room_id = room_id;
      webhook_url = webhook_url;
      kinds = kinds;
      only_from = only_from;
      not_from = not_from;
      exclude_thinking = exclude_thinking;
      since_seq = since_seq;
      last_delivered_seq = since_seq;
      status = "active";
      failure_count = 0;
      created_at = now;
    } in
      let row : SubscriptionRow = record {
        sub = record sub { created_at = to_millis now };
        owner_key = owner_key;
        secret = secret;
      } in
      (ok sub, record s { subscriptions = s.subscriptions ++ row ∷ [] })

unfoldable pub get_subscription : String → Store → Option SubscriptionRow
unfolding find_row
get_subscription subscription_id s = find_row (has_subscription_id subscription_id) s.subscriptions

abbrev pub is_for_room : Option String → SubscriptionRow → Bool
is_for_room none r = true
is_for_room (some room_id) r = r.sub.room_id == room_id

-- `ORDER BY created_at DESC`
abbrev pub newest_first : SubscriptionRow → SubscriptionRow → Bool
newest_first a b = leb b.sub.created_at a.sub.created_at

abbrev pub sub_of : SubscriptionRow → Subscription
sub_of r = r.sub

unfoldable pub list_subscriptions : String → Option String → Store → List Subscription
unfolding order_by
list_subscriptions owner_key room_id s = map sub_of (
    order_by newest_first (
      retain (λ (r : SubscriptionRow). r.owner_key == owner_key && is_for_room room_id r)
        s.subscriptions))

abbrev pub is_active_in : String → SubscriptionRow → Bool
is_active_in room_id r = r.sub.room_id == room_id && r.sub.status == "active"

unfoldable pub list_active_subscriptions_for_room : String → Store → List SubscriptionRow
list_active_subscriptions_for_room room_id s = retain (is_active_in room_id) s.subscriptions

abbrev pub owned : String → String → SubscriptionRow → Bool
owned subscription_id owner_key r =
    r.sub.subscription_id == subscription_id && r.owner_key == owner_key

abbrev pub is_delivery_of : String → DeliveryRow → Bool
is_delivery_of subscription_id d = d.subscription_id == subscription_id

-- The deliveries go with the row, `ON DELETE CASCADE`.
unfoldable pub delete_subscription : String → String → Store → Bool × Store
unfolding delete_where
delete_subscription subscription_id owner_key s =
    if any (owned subscription_id owner_key) s.subscriptions
    then (
      true,
      record s {
        subscriptions = delete_where (owned subscription_id owner_key) s.subscriptions;
        deliveries = delete_where (is_delivery_of subscription_id) s.deliveries;
      },
    )
    else (false, s)

abbrev pub with_status : String → Option ℕ → SubscriptionRow → SubscriptionRow
with_status status none r = record r { sub = record r.sub { status = status } }
with_status status (some n) r = record r {
  sub = record r.sub { status = status; failure_count = n };
}

unfoldable pub set_subscription_status : String → String → Option ℕ → Store → Store
unfolding update_where
set_subscription_status subscription_id status failure_count s = record s {
  subscriptions =
      update_where (has_subscription_id subscription_id) (with_status status failure_count)
        s.subscriptions;
}

abbrev pub is_behind : String → ℕ → SubscriptionRow → Bool
is_behind subscription_id seq r =
    r.sub.subscription_id == subscription_id && ltb r.sub.last_delivered_seq seq

unfoldable pub advance_subscription_cursor : String → ℕ → Store → Store
unfolding update_where
advance_subscription_cursor subscription_id new_last_delivered_seq s = record s {
  subscriptions =
      update_where (is_behind subscription_id new_last_delivered_seq)
        (λ (r : SubscriptionRow). record r {
          sub = record r.sub { last_delivered_seq = new_last_delivered_seq; failure_count = 0 };
        })
        s.subscriptions;
}

abbrev pub has_delivery_id : String → DeliveryRow → Bool
has_delivery_id delivery_id d = d.delivery_id == delivery_id

abbrev pub is_pending : String → ℕ → DeliveryRow → Bool
is_pending subscription_id seq d = d.subscription_id == subscription_id && eqb d.message_seq seq

-- Every constraint of the table makes it `false`: the id, the pair, and the reference.
unfoldable pub enqueue_delivery : String → String → ℕ → String → ℕ → Store → Bool × Store
enqueue_delivery delivery_id subscription_id message_seq message_id next_attempt_at s =
    if any (has_delivery_id delivery_id) s.deliveries
    then (false, s)
    else if any (is_pending subscription_id message_seq) s.deliveries
    then (false, s)
    else if not (any (has_subscription_id subscription_id) s.subscriptions)
    then (false, s)
    else let row : DeliveryRow = record {
      delivery_id = delivery_id;
      subscription_id = subscription_id;
      message_seq = message_seq;
      message_id = message_id;
      next_attempt_at = to_millis next_attempt_at;
      attempts = 0;
      last_error = none;
    } in
      (true, record s { deliveries = s.deliveries ++ row ∷ [] })

-- `PendingDelivery`
pub record PendingDelivery : Type 0 where
  pub delivery_id : String
  pub subscription_id : String
  pub message_seq : ℕ
  pub message_id : String
  pub attempts : ℕ

abbrev pub pending_delivery : DeliveryRow → PendingDelivery
pending_delivery d = record {
  delivery_id = d.delivery_id;
  subscription_id = d.subscription_id;
  message_seq = d.message_seq;
  message_id = d.message_id;
  attempts = d.attempts;
}

abbrev pub is_earlier : DeliveryRow → DeliveryRow → Bool
is_earlier d e = e.subscription_id == d.subscription_id && ltb e.message_seq d.message_seq

abbrev pub is_due : ℕ → List DeliveryRow → DeliveryRow → Bool
is_due now queue d = leb d.next_attempt_at (to_millis now) && not (any (is_earlier d) queue)

-- `ORDER BY next_attempt_at ASC, message_seq ASC`
abbrev pub by_attempt : DeliveryRow → DeliveryRow → Bool
by_attempt a b =
    if eqb a.next_attempt_at b.next_attempt_at
    then leb a.message_seq b.message_seq
    else leb a.next_attempt_at b.next_attempt_at

unfoldable pub load_due_deliveries : ℕ → ℕ → Store → List PendingDelivery
unfolding order_by
load_due_deliveries now limit s =
    map pending_delivery
      (take limit (order_by by_attempt (retain (is_due now s.deliveries) s.deliveries)))

-- The least time of the queue.
unfoldable pub earliest_of : List DeliveryRow → Option ℕ
earliest_of [] = none
earliest_of (d ∷ ds) = elim (earliest_of ds) [
  | none ↦ some d.next_attempt_at
  | some t ↦ some (if leb d.next_attempt_at t then d.next_attempt_at else t)
]

unfoldable pub earliest_pending_attempt : Store → Option ℕ
unfolding earliest_of
earliest_pending_attempt s = earliest_of s.deliveries

unfoldable pub delete_delivery : String → Store → Store
unfolding delete_where
delete_delivery delivery_id s = record s {
  deliveries = delete_where (has_delivery_id delivery_id) s.deliveries;
}

unfoldable pub reschedule_delivery : String → ℕ → ℕ → String → Store → Store
unfolding update_where
reschedule_delivery delivery_id next_attempt_at attempts last_error s = record s {
  deliveries =
      update_where (has_delivery_id delivery_id)
        (λ (d : DeliveryRow). record d {
          next_attempt_at = to_millis next_attempt_at;
          attempts = attempts;
          last_error = some last_error;
        })
        s.deliveries;
}
