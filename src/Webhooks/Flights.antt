-- ===== src/Webhooks/Flights.antt =====
-- The deliveries that are under way at once.
use cowchat4win.Base.{
  ℕ, zero, suc, ◌+◌, ◌-◌, ◌*◌, String, ◌≡◌, refl, sym, ap, ◌∙◌, subst, Bool, false, not, Option,
  none, some, List, [], ◌∷◌, ◌==◌, arith, any, map, get_elem?, is_empty, Bool-cases, Option-cases,
  inl, inr,
}
use cowchat4win.Tombstones.{nanos_per_sec}
use cowchat4win.Store.{Store}
use cowchat4win.Store.Messages.{get_message}
use cowchat4win.Store.Subscriptions.{
  PendingDelivery, has_delivery_id, get_subscription, delete_delivery, reschedule_delivery,
  set_subscription_status, advance_subscription_cursor, load_due_deliveries,
}
use cowchat4win.Store.Subscriptions.Queue.{
  OncePerMessage, delete-OncePerMessage, later-OncePerMessage, enqueue_delivery-OncePerMessage,
  queue_run-OncePerMessage,
}
use cowchat4win.Store.Subscriptions.Batch.{
  OnePerSubscription, is_pending_of, load_due_deliveries-OnePerSubscription,
}
use cowchat4win.Webhooks.{Outcome, blocked, delivered, failed, matches_filter, retry_schedule_secs}
use cowchat4win.Webhooks.Worker.{
  Enqueuing, listing, queuing, enqueue_step, Flight, looking, finding, dropping, sending, advancing,
  giving_up, flight_step, Hooks, HookStep, spawns, enqueues, loads, wakes, flies, calls,
  sets_status, hook_step, hook_run, placed,
}

abbrev pub delivery_of : Flight → PendingDelivery
delivery_of (looking d) = d
delivery_of (finding d) = d
delivery_of (dropping d) = d
delivery_of (sending d) = d
delivery_of (advancing d) = d
delivery_of (giving_up d) = d

-- No two deliveries that are under way are of one subscription.
abbrev pub Serialized : List Flight → Type 0
Serialized fs = OnePerSubscription (map delivery_of fs)

-- A step of a delivery ends it, or leaves it the same delivery.
abbrev Same : PendingDelivery → Option Flight → Type 0
Same d none = Unit
Same d (some f) = delivery_of f ≡ d

flight_step-Same :
    (now : ℕ) (outcome : Outcome) (f : Flight) (s : Store)
    → Same (delivery_of f) (flight_step now outcome f s).0
unfolding flight_step
flight_step-Same now outcome (looking d) s =
    elim (Option-cases (get_subscription d.subscription_id s)) [
      | inl e ↦ rw (e, flight_step) refl
      | inr (r, e) ↦ elim (Bool-cases (not (r.sub.status == "active"))) [
        | inl x ↦ rw (e, x, flight_step) refl
        | inr x ↦ rw (e, x, flight_step) refl
      ]
    ]
flight_step-Same now outcome (finding d) s = elim (Option-cases (get_message d.message_id s)) [
  | inl e ↦ rw (e, flight_step) refl
  | inr (msg, e) ↦ rw (e, flight_step) refl
]
flight_step-Same now outcome (dropping d) s = tt
flight_step-Same now blocked (sending d) s = tt
flight_step-Same now delivered (sending d) s = refl
flight_step-Same now (failed why) (sending d) s =
    elim (Option-cases (get_elem? retry_schedule_secs (d.attempts + 1 - 1))) [
      | inl e ↦ rw (e, flight_step) refl
      | inr (delay, e) ↦ rw (e, flight_step) tt
    ]
flight_step-Same now outcome (advancing d) s = tt
flight_step-Same now outcome (giving_up d) s = tt

abbrev of_sub : String → List Flight → Bool
of_sub k fs = any (is_pending_of k) (map delivery_of fs)

placed-of_sub :
    (k : String) (i : ℕ) (f : Flight) (next : Option Flight) (fs : List Flight)
    → get_elem? fs i ≡ some f
    → Same (delivery_of f) next
    → of_sub k fs ≡ false
    → of_sub k (placed i next fs) ≡ false
placed-of_sub k i f next [] e same h = refl
placed-of_sub k zero f none (g ∷ fs) e same h = ground (arith, h)
placed-of_sub k zero f (some f') (g ∷ fs) e same h =
    let both : some g ≡ some f = e in
    let eq : g ≡ f = cc in
    let sub : (delivery_of f').subscription_id ≡ (delivery_of g).subscription_id =
      ap (λ (d : PendingDelivery). d.subscription_id) (same ∙ ap delivery_of (sym eq)) in
    ground (arith, h, ap (λ x. x == k) sub)
placed-of_sub k (suc i) f next (g ∷ fs) e same h =
    ground (arith, h, placed-of_sub k i f next fs e same (ground (arith, h)))

placed-Serialized :
    (i : ℕ) (f : Flight) (next : Option Flight) (fs : List Flight)
    → get_elem? fs i ≡ some f
    → Same (delivery_of f) next
    → Serialized fs
    → Serialized (placed i next fs)
placed-Serialized i f next [] e same o = tt
placed-Serialized zero f none (g ∷ fs) e same (n, o) = o
placed-Serialized zero f (some f') (g ∷ fs) e same (n, o) =
    let both : some g ≡ some f = e in
    let eq : g ≡ f = cc in
    let sub : (delivery_of f').subscription_id ≡ (delivery_of g).subscription_id =
      ap (λ (d : PendingDelivery). d.subscription_id) (same ∙ ap delivery_of (sym eq)) in
    (ap (λ x. of_sub x fs) sub ∙ n, o)
placed-Serialized (suc i) f next (g ∷ fs) e same (n, o) = (
  placed-of_sub (delivery_of g).subscription_id i f next fs e same n,
  placed-Serialized i f next fs e same o,
)

loaded : (ds : List PendingDelivery) → map delivery_of (map looking ds) ≡ ds
loaded [] = refl
loaded (d ∷ ds) = ap (λ xs. d ∷ xs) (loaded ds)

enqueue_step-OncePerMessage :
    (now : ℕ) (id : String) (task : Enqueuing) (s : Store)
    → OncePerMessage s.deliveries
    → OncePerMessage (enqueue_step now id task s).2.deliveries
unfolding enqueue_step
enqueue_step-OncePerMessage now id (listing msg) s o = o
enqueue_step-OncePerMessage now id (queuing msg since zero []) s o = o
enqueue_step-OncePerMessage now id (queuing msg since (suc n) []) s o = o
enqueue_step-OncePerMessage now id (queuing msg since n (r ∷ rs)) s o =
    elim (Bool-cases (matches_filter r.sub msg)) [
      | inl e ↦
          rw (e, enqueue_step)
            (enqueue_delivery-OncePerMessage id r.sub.subscription_id msg.seq msg.message_id since s
              o)
      | inr e ↦ rw (e, enqueue_step) o
    ]

flight_step-OncePerMessage :
    (now : ℕ) (outcome : Outcome) (f : Flight) (s : Store)
    → OncePerMessage s.deliveries
    → OncePerMessage (flight_step now outcome f s).1.deliveries
unfolding flight_step delete_delivery reschedule_delivery set_subscription_status
    advance_subscription_cursor
flight_step-OncePerMessage now outcome (looking d) s o =
    elim (Option-cases (get_subscription d.subscription_id s)) [
      | inl e ↦ rw (e, flight_step) o
      | inr (r, e) ↦ elim (Bool-cases (not (r.sub.status == "active"))) [
        | inl x ↦ rw (e, x, flight_step) o
        | inr x ↦ rw (e, x, flight_step) o
      ]
    ]
flight_step-OncePerMessage now outcome (finding d) s o =
    elim (Option-cases (get_message d.message_id s)) [
      | inl e ↦ rw (e, flight_step) o
      | inr (msg, e) ↦ rw (e, flight_step) o
    ]
flight_step-OncePerMessage now outcome (dropping d) s o =
    delete-OncePerMessage (has_delivery_id d.delivery_id) s.deliveries o
flight_step-OncePerMessage now blocked (sending d) s o = o
flight_step-OncePerMessage now delivered (sending d) s o =
    delete-OncePerMessage (has_delivery_id d.delivery_id) s.deliveries o
flight_step-OncePerMessage now (failed why) (sending d) s o =
    elim (Option-cases (get_elem? retry_schedule_secs (d.attempts + 1 - 1))) [
      | inl e ↦
          rw (e, flight_step) (delete-OncePerMessage (has_delivery_id d.delivery_id) s.deliveries o)
      | inr (delay, e) ↦
          rw (e, flight_step)
            (later-OncePerMessage d.delivery_id (now + delay * nanos_per_sec) (d.attempts + 1) why
              s.deliveries o)
    ]
flight_step-OncePerMessage now outcome (advancing d) s o = o
flight_step-OncePerMessage now outcome (giving_up d) s o = o

-- What the order of the steps cannot break.
abbrev pub Orderly : Hooks → Type 0
Orderly h = OncePerMessage h.store.deliveries × Serialized h.flights

hook_step-Orderly : (h : Hooks) (c : HookStep) → Orderly h → Orderly (hook_step h c)
unfolding hook_step set_subscription_status
hook_step-Orderly h (spawns msg) o = o
hook_step-Orderly h (enqueues i now id) (o, f) = elim (Option-cases (get_elem? h.tasks i)) [
  | inl e ↦ rw (e, hook_step) (o, f)
  | inr (task, e) ↦ rw (e, hook_step) (enqueue_step-OncePerMessage now id task h.store o, f)
]
hook_step-Orderly h (loads now) (o, f) = elim (Bool-cases (is_empty h.flights)) [
  | inl e ↦
      rw (e, hook_step)
        (
          o,
          subst OnePerSubscription (sym (loaded (load_due_deliveries now 32 h.store)))
              (load_due_deliveries-OnePerSubscription h.store [] now 32 o),
        )
  | inr e ↦ rw (e, hook_step) (o, f)
]
hook_step-Orderly h wakes (o, f) = elim (Bool-cases (is_empty h.flights)) [
  | inl e ↦ rw (e, hook_step) (o, f)
  | inr e ↦ rw (e, hook_step) (o, f)
]
hook_step-Orderly h (flies i now outcome) (o, f) = elim (Option-cases (get_elem? h.flights i)) [
  | inl e ↦ rw (e, hook_step) (o, f)
  | inr (flight, e) ↦
      rw (e, hook_step)
        (
          flight_step-OncePerMessage now outcome flight h.store o,
          placed-Serialized i flight (flight_step now outcome flight h.store).0 h.flights e
              (flight_step-Same now outcome flight h.store) f,
        )
]
hook_step-Orderly h (calls c) (o, f) = (queue_run-OncePerMessage h.store (c ∷ []) o, f)
hook_step-Orderly h (sets_status id status count) (o, f) = (o, f)

-- From a queue that has each message once at most for a subscription, and with deliveries of
-- different subscriptions under way, after any steps of tasks, of the worker, of its deliveries and
-- of other calls, in any order, both hold: a subscription never has two deliveries under way.
pub hook_run-Orderly : (h : Hooks) (cs : List HookStep) → Orderly h → Orderly (hook_run h cs)
hook_run-Orderly h [] o = o
hook_run-Orderly h (c ∷ cs) o = hook_run-Orderly (hook_step h c) cs (hook_step-Orderly h c o)
