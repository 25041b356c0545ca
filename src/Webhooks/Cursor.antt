-- ===== src/Webhooks/Cursor.antt =====
-- The cursor of a subscription, while tasks and deliveries come in any order.
use cowchat4win.Base.{
  ℕ, zero, suc, ◌+◌, ◌-◌, ◌≤◌, String, ◌≡◌, refl, ap, ◌∙◌, subst, false, not, Option, some, List,
  [], ◌∷◌, ◌==◌, arith, any, get_elem?, is_empty, Bool-cases, Option-cases, inl, inr,
}
use cowchat4win.Base.Tables.{find_row, update_where, any-deleted}
use cowchat4win.Models.{ChatMessage}
use cowchat4win.Store.{Store, SubscriptionRow}
use cowchat4win.Store.Messages.{get_message}
use cowchat4win.Store.Subscriptions.{
  PendingDelivery, has_subscription_id, has_delivery_id, is_pending, is_behind, owned, with_status,
  get_subscription, enqueue_delivery, delete_delivery, reschedule_delivery, delete_subscription,
  set_subscription_status, advance_subscription_cursor,
}
use cowchat4win.Store.Subscriptions.Queue.{
  QueueCall, enqueues, deletes, reschedules, unsubscribes, queue_step,
}
use cowchat4win.Webhooks.{Outcome, blocked, delivered, failed, matches_filter, retry_schedule_secs}
use cowchat4win.Webhooks.Worker.{
  Enqueuing, listing, queuing, enqueue_step, Flight, looking, finding, dropping, sending, advancing,
  giving_up, flight_step, Hooks, HookStep, spawns, loads, wakes, flies, calls, sets_status,
  hook_step, hook_run,
}

-- No row of the subscription has a cursor below the number.
abbrev Reached : String → ℕ → Store → Type 0
Reached k n s = any (is_behind k n) s.subscriptions ≡ false

-- What leaves the subscriptions as they are.
same-Reached :
    (k : String) (n : ℕ) (s s' : Store)
    → s'.subscriptions ≡ s.subscriptions
    → Reached k n s
    → Reached k n s'
same-Reached k n s s' e h = ap (any (is_behind k n)) e ∙ h

status-Reached :
    (k id status : String) (n : ℕ) (count : Option ℕ) (s : Store)
    → Reached k n s
    → Reached k n (set_subscription_status id status count s)
unfolding set_subscription_status update_where
status-Reached k id status n count s h = rows s.subscriptions h
  where
    one : (r : SubscriptionRow) → is_behind k n (with_status status count r) ≡ is_behind k n r
    one r = elim (Option-cases count) [ inl e ↦ rw e refl | inr (c, e) ↦ rw e refl ]

    rows :
        (rs : List SubscriptionRow)
        → any (is_behind k n) rs ≡ false
        → any (is_behind k n) (update_where (has_subscription_id id) (with_status status count) rs)
          ≡ false
    rows [] h = refl
    rows (r ∷ rs) h = ground (arith, h, one r, rows rs (ground (arith, h)))

abbrev advanced : ℕ → SubscriptionRow → SubscriptionRow
advanced m r = record r { sub = record r.sub { last_delivered_seq = m; failure_count = 0 } }

-- Neither does the cursor fall, nor does it stay below the number that is set.
any-advanced :
    (k id : String) (n m : ℕ) (rs : List SubscriptionRow)
    → any (is_behind k n) rs ≡ false
    → any (is_behind k n) (update_where (is_behind id m) (advanced m) rs) ≡ false
unfolding update_where
any-advanced k id n m [] h = refl
any-advanced k id n m (r ∷ rs) h = ground (arith, h, any-advanced k id n m rs (ground (arith, h)))

advance-Reached :
    (k id : String) (n m : ℕ) (s : Store)
    → Reached k n s
    → Reached k n (advance_subscription_cursor id m s)
unfolding advance_subscription_cursor
advance-Reached k id n m s h = any-advanced k id n m s.subscriptions h

advanced-Reached :
    (id : String) (m : ℕ) (s : Store) → Reached id m (advance_subscription_cursor id m s)
unfolding advance_subscription_cursor update_where
advanced-Reached id m s = rows s.subscriptions
  where
    rows :
        (rs : List SubscriptionRow)
        → any (is_behind id m) (update_where (is_behind id m) (advanced m) rs) ≡ false
    rows [] = refl
    rows (r ∷ rs) = ground (arith, rows rs)

enqueue_delivery-same :
    (id sub : String) (seq : ℕ) (message : String) (next : ℕ) (s : Store)
    → (enqueue_delivery id sub seq message next s).1.subscriptions ≡ s.subscriptions
unfolding enqueue_delivery
enqueue_delivery-same id sub seq message next s =
    elim (Bool-cases (any (has_delivery_id id) s.deliveries)) [
      | inl a ↦ rw (a, enqueue_delivery) refl
      | inr a ↦ elim (Bool-cases (any (is_pending sub seq) s.deliveries)) [
        | inl b ↦ rw (a, b, enqueue_delivery) refl
        | inr b ↦ elim (Bool-cases (not (any (has_subscription_id sub) s.subscriptions))) [
          | inl c ↦ rw (a, b, c, enqueue_delivery) refl
          | inr c ↦ rw (a, b, c, enqueue_delivery) refl
        ]
      ]
    ]

enqueue_step-same :
    (now : ℕ) (id : String) (task : Enqueuing) (s : Store)
    → (enqueue_step now id task s).2.subscriptions ≡ s.subscriptions
unfolding enqueue_step
enqueue_step-same now id (listing msg) s = refl
enqueue_step-same now id (queuing msg since zero []) s = refl
enqueue_step-same now id (queuing msg since (suc n) []) s = refl
enqueue_step-same now id (queuing msg since n (r ∷ rs)) s =
    elim (Bool-cases (matches_filter r.sub msg)) [
      | inl e ↦
          rw (e, enqueue_step)
            (enqueue_delivery-same id r.sub.subscription_id msg.seq msg.message_id since s)
      | inr e ↦ rw (e, enqueue_step) refl
    ]

flight_step-Reached :
    (k : String) (n now : ℕ) (outcome : Outcome) (flight : Flight) (s : Store)
    → Reached k n s
    → Reached k n (flight_step now outcome flight s).1
unfolding flight_step delete_delivery reschedule_delivery
flight_step-Reached k n now outcome (looking d) s h =
    elim (Option-cases (get_subscription d.subscription_id s)) [
      | inl e ↦ rw (e, flight_step) h
      | inr (r, e) ↦ elim (Bool-cases (not (r.sub.status == "active"))) [
        | inl x ↦ rw (e, x, flight_step) h
        | inr x ↦ rw (e, x, flight_step) h
      ]
    ]
flight_step-Reached k n now outcome (finding d) s h =
    elim (Option-cases (get_message d.message_id s)) [
      | inl e ↦ rw (e, flight_step) h
      | inr (msg, e) ↦ rw (e, flight_step) h
    ]
flight_step-Reached k n now outcome (dropping d) s h = h
flight_step-Reached k n now blocked (sending d) s h =
    status-Reached k d.subscription_id "failed" n (some (d.attempts + 1)) s h
flight_step-Reached k n now delivered (sending d) s h = h
flight_step-Reached k n now (failed why) (sending d) s h =
    elim (Option-cases (get_elem? retry_schedule_secs (d.attempts + 1 - 1))) [
      | inl e ↦ rw (e, flight_step) h
      | inr (delay, e) ↦ rw (e, flight_step) h
    ]
flight_step-Reached k n now outcome (advancing d) s h =
    advance-Reached k d.subscription_id n d.message_seq s h
flight_step-Reached k n now outcome (giving_up d) s h =
    status-Reached k d.subscription_id "failed" n (some (d.attempts + 1)) s h

unsubscribed-Reached :
    (k : String) (n : ℕ) (sub key : String) (s : Store)
    → Reached k n s
    → Reached k n (delete_subscription sub key s).1
unfolding delete_subscription
unsubscribed-Reached k n sub key s h = elim (Bool-cases (any (owned sub key) s.subscriptions)) [
  | inl e ↦
      rw (e, delete_subscription) (any-deleted (is_behind k n) (owned sub key) s.subscriptions h)
  | inr e ↦ rw (e, delete_subscription) h
]

queue_step-Reached :
    (k : String) (n : ℕ) (s : Store) (c : QueueCall) → Reached k n s → Reached k n (queue_step s c)
unfolding delete_delivery reschedule_delivery
queue_step-Reached k n s (enqueues id sub seq message next) h =
    same-Reached k n s (enqueue_delivery id sub seq message next s).1
      (enqueue_delivery-same id sub seq message next s) h
queue_step-Reached k n s (deletes id) h = h
queue_step-Reached k n s (reschedules id next attempts error) h = h
queue_step-Reached k n s (unsubscribes sub key) h = unsubscribed-Reached k n sub key s h

hook_step-Reached :
    (k : String) (n : ℕ) (h : Hooks) (c : HookStep)
    → Reached k n h.store
    → Reached k n (hook_step h c).store
unfolding hook_step
hook_step-Reached k n h (spawns msg) r = r
hook_step-Reached k n h (HookStep.enqueues i now id) r = elim (Option-cases (get_elem? h.tasks i)) [
  | inl e ↦ rw (e, hook_step) r
  | inr (task, e) ↦
      rw (e, hook_step)
        (same-Reached k n h.store (enqueue_step now id task h.store).2
          (enqueue_step-same now id task h.store) r)
]
hook_step-Reached k n h (loads now) r = elim (Bool-cases (is_empty h.flights)) [
  | inl e ↦ rw (e, hook_step) r
  | inr e ↦ rw (e, hook_step) r
]
hook_step-Reached k n h wakes r = elim (Bool-cases (is_empty h.flights)) [
  | inl e ↦ rw (e, hook_step) r
  | inr e ↦ rw (e, hook_step) r
]
hook_step-Reached k n h (flies i now outcome) r = elim (Option-cases (get_elem? h.flights i)) [
  | inl e ↦ rw (e, hook_step) r
  | inr (flight, e) ↦ rw (e, hook_step) (flight_step-Reached k n now outcome flight h.store r)
]
hook_step-Reached k n h (calls c) r = queue_step-Reached k n h.store c r
hook_step-Reached k n h (sets_status id status count) r =
    status-Reached k id status n count h.store r

hook_run-Reached :
    (k : String) (n : ℕ) (h : Hooks) (cs : List HookStep)
    → Reached k n h.store
    → Reached k n (hook_run h cs).store
hook_run-Reached k n h [] r = r
hook_run-Reached k n h (c ∷ cs) r =
    hook_run-Reached k n (hook_step h c) cs (hook_step-Reached k n h c r)

found-Reached :
    (k : String) (n : ℕ) (r : SubscriptionRow) (rs : List SubscriptionRow)
    → find_row (has_subscription_id k) rs ≡ some r
    → any (is_behind k n) rs ≡ false
    → n ≤ r.sub.last_delivered_seq
unfolding find_row
found-Reached k n r [] e h = cc
found-Reached k n r (x ∷ xs) e h = elim (Bool-cases (has_subscription_id k x)) [
  | inl b ↦
      let both : some x ≡ some r = ground (arith, b, e) in
      let same : x ≡ r = cc in
      subst (λ (y : SubscriptionRow). n ≤ y.sub.last_delivered_seq) same (ground (arith, b, h))
  | inr b ↦ found-Reached k n r xs (ground (arith, b, e)) (ground (arith, h))
]

-- Once a delivery has moved the cursor of its subscription, then after any further steps of tasks, of
-- deliveries and of other calls, in any order, the cursor of the subscription, if it is still there,
-- is at the delivered number at least, and its filter takes no message up to that number any more.
pub delivered_is_filtered :
    (h : Hooks) (i now : ℕ) (outcome : Outcome) (d : PendingDelivery) (cs : List HookStep)
    (r : SubscriptionRow) (msg : ChatMessage)
    → get_elem? h.flights i ≡ some (advancing d)
    → get_subscription d.subscription_id (hook_run (hook_step h (flies i now outcome)) cs).store
      ≡ some r
    → msg.seq ≤ d.message_seq
    → (d.message_seq ≤ r.sub.last_delivered_seq) × (matches_filter r.sub msg ≡ false)
unfolding hook_step flight_step get_subscription matches_filter
delivered_is_filtered h i now outcome d cs r msg f e le =
    let first : Reached d.subscription_id d.message_seq (hook_step h (flies i now outcome)).store =
      rw (f, hook_step) (advanced-Reached d.subscription_id d.message_seq h.store) in
    let last = (hook_run (hook_step h (flies i now outcome)) cs).store in
    let high : d.message_seq ≤ r.sub.last_delivered_seq =
      found-Reached d.subscription_id d.message_seq r last.subscriptions e (
        hook_run-Reached d.subscription_id d.message_seq (hook_step h (flies i now outcome)) cs
          first) in
    (high, ground (arith, high, le))
