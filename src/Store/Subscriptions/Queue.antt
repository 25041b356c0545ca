-- ===== src/Store/Subscriptions/Queue.antt =====
-- The queue of deliveries under any calls.
use cowchat4win.Base.{
  ℕ, String, ◌≡◌, refl, ◌∙◌, Bool, false, not, some, List, [], ◌∷◌, ◌++◌, arith, eq_iff, any,
  Bool-cases, inl, inr,
}
use cowchat4win.Base.Tables.{update_where, delete_where, any-append, any-deleted}
use cowchat4win.Store.{Store, DeliveryRow, to_millis}
use cowchat4win.Store.Subscriptions.{
  has_delivery_id, has_subscription_id, is_pending, is_delivery_of, enqueue_delivery,
  delete_delivery, reschedule_delivery, delete_subscription, owned,
}

pub data QueueCall : Type 0 where
  enqueues : String → String → ℕ → String → ℕ → QueueCall
  deletes : String → QueueCall
  reschedules : String → ℕ → ℕ → String → QueueCall
  unsubscribes : String → String → QueueCall

abbrev pub queue_step : Store → QueueCall → Store
queue_step s (enqueues id sub seq message next) = (enqueue_delivery id sub seq message next s).1
queue_step s (deletes id) = delete_delivery id s
queue_step s (reschedules id next attempts error) = reschedule_delivery id next attempts error s
queue_step s (unsubscribes sub key) = (delete_subscription sub key s).1

abbrev pub queue_run : Store → List QueueCall → Store
queue_run s [] = s
queue_run s (c ∷ cs) = queue_run (queue_step s c) cs

-- A message is queued once at most for a subscription.
abbrev pub OncePerMessage : List DeliveryRow → Type 0
OncePerMessage [] = Unit
OncePerMessage (d ∷ ds) =
    (any (is_pending d.subscription_id d.message_seq) ds ≡ false) × OncePerMessage ds

append-OncePerMessage :
    (ds : List DeliveryRow) (d : DeliveryRow)
    → OncePerMessage ds
    → any (is_pending d.subscription_id d.message_seq) ds ≡ false
    → OncePerMessage (ds ++ d ∷ [])
append-OncePerMessage [] d o h = (refl, tt)
append-OncePerMessage (e ∷ ds) d (n, o) h = (
  ground (
    arith,
    n,
    h,
    eq_iff d.subscription_id e.subscription_id,
    eq_iff e.subscription_id d.subscription_id,
    any-append (is_pending e.subscription_id e.message_seq) ds (d ∷ []),
  ),
  append-OncePerMessage ds d o (ground (arith, h)),
)

pub delete-OncePerMessage :
    (p : DeliveryRow → Bool) (ds : List DeliveryRow)
    → OncePerMessage ds
    → OncePerMessage (delete_where p ds)
unfolding delete_where
delete-OncePerMessage p [] o = tt
delete-OncePerMessage p (d ∷ ds) (n, o) = elim (Bool-cases (p d)) [
  | inl e ↦ rw e (delete-OncePerMessage p ds o)
  | inr e ↦ rw e (
    any-deleted (is_pending d.subscription_id d.message_seq) p ds n,
    delete-OncePerMessage p ds o,
  )
]

abbrev pub later : ℕ → ℕ → String → DeliveryRow → DeliveryRow
later next attempts error d = record d {
  next_attempt_at = to_millis next;
  attempts = attempts;
  last_error = some error;
}

pub any-later :
    (k : String) (n : ℕ) (id : String) (next attempts : ℕ) (error : String) (ds : List DeliveryRow)
    → any (is_pending k n) (update_where (has_delivery_id id) (later next attempts error) ds)
      ≡ any (is_pending k n) ds
unfolding update_where
any-later k n id next attempts error [] = refl
any-later k n id next attempts error (d ∷ ds) =
    ground (arith, any-later k n id next attempts error ds)

pub later-OncePerMessage :
    (id : String) (next attempts : ℕ) (error : String) (ds : List DeliveryRow)
    → OncePerMessage ds
    → OncePerMessage (update_where (has_delivery_id id) (later next attempts error) ds)
unfolding update_where
later-OncePerMessage id next attempts error [] o = tt
later-OncePerMessage id next attempts error (d ∷ ds) (n, o) =
    let rest = later-OncePerMessage id next attempts error ds o in
    let absent = any-later d.subscription_id d.message_seq id next attempts error ds ∙ n in
    elim (Bool-cases (has_delivery_id id d)) [
      | inl e ↦ rw e (absent, rest)
      | inr e ↦ rw e (absent, rest)
    ]

pub enqueue_delivery-OncePerMessage :
    (id sub : String) (seq : ℕ) (message : String) (next : ℕ) (s : Store)
    → OncePerMessage s.deliveries
    → OncePerMessage (enqueue_delivery id sub seq message next s).1.deliveries
unfolding enqueue_delivery
enqueue_delivery-OncePerMessage id sub seq message next s o =
    elim (Bool-cases (any (has_delivery_id id) s.deliveries)) [
      | inl a ↦ rw (a, enqueue_delivery) o
      | inr a ↦ elim (Bool-cases (any (is_pending sub seq) s.deliveries)) [
        | inl b ↦ rw (a, b, enqueue_delivery) o
        | inr b ↦ elim (Bool-cases (not (any (has_subscription_id sub) s.subscriptions))) [
          | inl c ↦ rw (a, b, c, enqueue_delivery) o
          | inr c ↦ rw (a, b, c, enqueue_delivery) (append-OncePerMessage s.deliveries _ o b)
        ]
      ]
    ]

delete_subscription-OncePerMessage :
    (sub key : String) (s : Store)
    → OncePerMessage s.deliveries
    → OncePerMessage (delete_subscription sub key s).1.deliveries
unfolding delete_subscription
delete_subscription-OncePerMessage sub key s o =
    elim (Bool-cases (any (owned sub key) s.subscriptions)) [
      | inl e ↦
          rw (e, delete_subscription) (delete-OncePerMessage (is_delivery_of sub) s.deliveries o)
      | inr e ↦ rw (e, delete_subscription) o
    ]

queue_step-OncePerMessage :
    (s : Store) (c : QueueCall)
    → OncePerMessage s.deliveries
    → OncePerMessage (queue_step s c).deliveries
unfolding delete_delivery reschedule_delivery
queue_step-OncePerMessage s (enqueues id sub seq message next) o =
    enqueue_delivery-OncePerMessage id sub seq message next s o
queue_step-OncePerMessage s (deletes id) o =
    delete-OncePerMessage (has_delivery_id id) s.deliveries o
queue_step-OncePerMessage s (reschedules id next attempts error) o =
    later-OncePerMessage id next attempts error s.deliveries o
queue_step-OncePerMessage s (unsubscribes sub key) o =
    delete_subscription-OncePerMessage sub key s o

pub queue_run-OncePerMessage :
    (s : Store) (cs : List QueueCall)
    → OncePerMessage s.deliveries
    → OncePerMessage (queue_run s cs).deliveries
queue_run-OncePerMessage s [] o = o
queue_run-OncePerMessage s (c ∷ cs) o =
    queue_run-OncePerMessage (queue_step s c) cs (queue_step-OncePerMessage s c o)
