-- ===== src/Webhooks/Tests.antt =====
-- Webhooks at concrete inputs.
use cowchat4win.Base.{
  ℕ, ◌+◌, ◌≤◌, String, ◌≡◌, refl, false, none, some, List, [], ◌∷◌, ◌==◌, arith, length,
  if◌then◌else◌, leb, eqb, Result, ok, err,
}
use cowchat4win.Base.Tables.{find_row, update_where, delete_where, order_by}
use cowchat4win.Store.{Store, DeliveryRow, created_tables}
use cowchat4win.Webhooks.{Url, IpAddr, v4}
use cowchat4win.Protocol.{null, get}
use cowchat4win.Store.{SubscriptionRow, MessageRow, map_message_row}
use cowchat4win.Webhooks.{delivered, matches_filter, meta_text}
use cowchat4win.Store.Subscriptions.{
  PendingDelivery, get_subscription, list_active_subscriptions_for_room, load_due_deliveries,
  enqueue_delivery, delete_delivery, set_subscription_status, advance_subscription_cursor,
}
use cowchat4win.Store.Subscriptions.Queue.{deletes}
use cowchat4win.Webhooks.Worker.{
  Hooks, HookStep, listing, advancing, enqueues, loads, wakes, flies, calls, sets_status, hook_run,
  hook_step, flight_step, enqueue_step,
}
use cowchat4win.Webhooks.Cursor.{delivered_is_filtered}
use cowchat4win.Webhooks.Flights.{Orderly, hook_run-Orderly}
use cowchat4win.Webhooks.Retries.{attempts_of, fail_each, tried_six_times}

abbrev hook_url : Url
hook_url = record {
  scheme = "https";
  username = "";
  password = none;
  host = some "example.org";
  port = some 443;
}

abbrev parse : String → Result Url String
parse raw =
    if raw == "https://example.org/hook" then ok hook_url else err "relative URL without a base"

abbrev lookup_host : String → ℕ → Result (List IpAddr) String
lookup_host host port =
    if host == "example.org" then ok (v4 93 184 216 34 ∷ []) else err "no such host"

abbrev pending : DeliveryRow
pending = record {
  delivery_id = "d";
  subscription_id = "s";
  message_seq = 1;
  message_id = "m";
  next_attempt_at = 0;
  attempts = 0;
  last_error = none;
}

abbrev six_failures : List (ℕ × String)
six_failures =
    (1, "HTTP 500")
    ∷ (2, "HTTP 500")
    ∷ (3, "HTTP 500")
    ∷ (4, "HTTP 500")
    ∷ (5, "HTTP 500")
    ∷ (6, "HTTP 500")
    ∷ []

tried_six_times_example :
    attempts_of "d"
      (fail_each "d" six_failures (record created_tables { deliveries = pending ∷ [] }))
    ≡ (if leb (0 + length six_failures) 5 then some (0 + length six_failures) else none)
unfolding find_row
tried_six_times_example =
    tried_six_times "d" six_failures 0 (record created_tables { deliveries = pending ∷ [] }) refl
      (omega arith)

abbrev moo : ℕ → MessageRow
moo n = record {
  message_id = if eqb n 1 then "m1" else "m2";
  room_id = "r";
  agent_id = "a";
  agent_name = "ann";
  content = "Moo";
  reply_to_message = none;
  metadata = null;
  created_at = 0;
  seq = n;
}

abbrev subscription : SubscriptionRow
subscription = record {
  sub = record {
    subscription_id = "s";
    room_id = "r";
    webhook_url = "https://example.org/hook";
    kinds = [];
    only_from = none;
    not_from = none;
    exclude_thinking = false;
    since_seq = 0;
    last_delivered_seq = 0;
    status = "active";
    failure_count = 0;
    created_at = 0;
  };
  owner_key = "k";
  secret = "t";
}

abbrev tables : Store
tables = record created_tables { messages = moo 1 ∷ moo 2 ∷ []; subscriptions = subscription ∷ [] }

abbrev due : PendingDelivery
due = record {
  delivery_id = "d1";
  subscription_id = "s";
  message_seq = 1;
  message_id = "m1";
  attempts = 0;
}

-- A second message, whose task lists the subscriptions while the first one is being delivered.
abbrev hooks : Hooks
hooks = record {
  store = record tables {
    deliveries = record pending { delivery_id = "d1"; message_id = "m1" } ∷ [];
  };
  tasks = listing (map_message_row (moo 2)) ∷ [];
  flights = advancing due ∷ [];
  notified = false;
}

abbrev more_steps : List HookStep
more_steps =
    enqueues 0 1 "d2"
    ∷ enqueues 0 1 "d2"
    ∷ calls (deletes "d1")
    ∷ loads 2
    ∷ flies 0 2 delivered
    ∷ sets_status "s" "active" none
    ∷ enqueues 0 3 "d3"
    ∷ wakes
    ∷ []

delivered_is_filtered_example :
    (1 ≤ 1)
    × (matches_filter (record subscription.sub { last_delivered_seq = 1 }) (map_message_row (moo 1))
        ≡ false)
unfolding get_subscription find_row hook_step flight_step enqueue_step matches_filter meta_text get
    list_active_subscriptions_for_room load_due_deliveries enqueue_delivery delete_delivery
    set_subscription_status advance_subscription_cursor update_where delete_where order_by
    map_message_row
delivered_is_filtered_example =
    delivered_is_filtered hooks 0 1 delivered due more_steps
      (record subscription { sub = record subscription.sub { last_delivered_seq = 1 } })
      (map_message_row (moo 1)) refl refl (omega arith)

hook_run-Orderly_example : Orderly (hook_run hooks (flies 0 1 delivered ∷ more_steps))
hook_run-Orderly_example =
    hook_run-Orderly hooks (flies 0 1 delivered ∷ more_steps) ((refl, tt), (refl, tt))
