-- ===== src/Store/Subscriptions/Batch.antt =====
-- The deliveries that are due at once.
use cowchat4win.Base.{
  ℕ, zero, suc, String, ◌≡◌, refl, ◌∙◌, Bool, false, List, [], ◌∷◌, ◌==◌, arith, eq_iff, any, map,
  retain, Bool-cases, inl, inr,
}
use cowchat4win.Base.Tables.{
  insert_ordered, order_by, take, any-insert_ordered, any-order_by, any-take,
}
use cowchat4win.Store.{Store, DeliveryRow}
use cowchat4win.Store.Subscriptions.{
  PendingDelivery, is_pending, is_delivery_of, is_due, is_earlier, by_attempt, pending_delivery,
  load_due_deliveries,
}
use cowchat4win.Store.Subscriptions.Queue.{
  QueueCall, queue_run, OncePerMessage, queue_run-OncePerMessage,
}

-- Each subscription stands once.
abbrev Separate : List DeliveryRow → Type 0
Separate [] = Unit
Separate (d ∷ ds) = (any (is_delivery_of d.subscription_id) ds ≡ false) × Separate ds

insert_ordered-Separate :
    (d : DeliveryRow) (ds : List DeliveryRow)
    → any (is_delivery_of d.subscription_id) ds ≡ false
    → Separate ds
    → Separate (insert_ordered by_attempt d ds)
unfolding insert_ordered
insert_ordered-Separate d [] h o = (refl, tt)
insert_ordered-Separate d (e ∷ ds) h (n, o) = elim (Bool-cases (by_attempt d e)) [
  | inl b ↦ rw b (h, (n, o))
  | inr b ↦ rw b (
    ground (
      arith,
      n,
      h,
      eq_iff d.subscription_id e.subscription_id,
      eq_iff e.subscription_id d.subscription_id,
      any-insert_ordered (is_delivery_of e.subscription_id) by_attempt d ds,
    ),
    insert_ordered-Separate d ds (ground (arith, h)) o,
  )
]

order_by-Separate : (ds : List DeliveryRow) → Separate ds → Separate (order_by by_attempt ds)
unfolding order_by
order_by-Separate [] o = tt
order_by-Separate (d ∷ ds) (n, o) =
    insert_ordered-Separate d (order_by by_attempt ds)
      (any-order_by (is_delivery_of d.subscription_id) by_attempt ds ∙ n) (order_by-Separate ds o)

take-Separate : (n : ℕ) (ds : List DeliveryRow) → Separate ds → Separate (take n ds)
take-Separate zero ds o = tt
take-Separate (suc n) [] o = tt
take-Separate (suc n) (d ∷ ds) (h, o) =
    (any-take (is_delivery_of d.subscription_id) n ds h, take-Separate n ds o)

-- Every row of the one list is a row of the other.
abbrev Covers : List DeliveryRow → List DeliveryRow → Type 0
Covers queue ds = (p : DeliveryRow → Bool) → any p queue ≡ false → any p ds ≡ false

no_other_due :
    (now : ℕ) (queue : List DeliveryRow) (d : DeliveryRow) (ds : List DeliveryRow)
    → Covers queue (d ∷ ds)
    → any (is_earlier d) queue ≡ false
    → any (is_pending d.subscription_id d.message_seq) ds ≡ false
    → any (is_delivery_of d.subscription_id) (retain (is_due now queue) ds) ≡ false
no_other_due now queue d [] covers first once = refl
no_other_due now queue d (e ∷ ds) covers first once =
    let rest =
      no_other_due now queue d ds (λ p h. ground (arith, covers p h)) first
        (ground (arith, once)) in
    elim (Bool-cases (is_due now queue e)) [
      | inr x ↦ rw x rest
      | inl x ↦
          let alone : any (is_earlier e) queue ≡ false = ground (arith, x) in
          rw x (
            ground (
              arith,
              rest,
              once,
              covers (is_earlier d) first,
              covers (is_earlier e) alone,
              eq_iff e.subscription_id d.subscription_id,
              eq_iff d.subscription_id e.subscription_id,
            ))
    ]

due-Separate :
    (now : ℕ) (queue ds : List DeliveryRow)
    → Covers queue ds
    → OncePerMessage ds
    → Separate (retain (is_due now queue) ds)
due-Separate now queue [] covers o = tt
due-Separate now queue (d ∷ ds) covers (n, o) =
    let rest = due-Separate now queue ds (λ p h. ground (arith, covers p h)) o in
    elim (Bool-cases (is_due now queue d)) [
      | inr x ↦ rw x rest
      | inl x ↦
          let alone : any (is_earlier d) queue ≡ false = ground (arith, x) in
          rw x (no_other_due now queue d ds covers alone n, rest)
    ]

abbrev pub is_pending_of : String → PendingDelivery → Bool
is_pending_of sub d = d.subscription_id == sub

-- Each subscription stands once.
abbrev pub OnePerSubscription : List PendingDelivery → Type 0
OnePerSubscription [] = Unit
OnePerSubscription (d ∷ ds) =
    (any (is_pending_of d.subscription_id) ds ≡ false) × OnePerSubscription ds

any-pending :
    (k : String) (ds : List DeliveryRow)
    → any (is_pending_of k) (map pending_delivery ds) ≡ any (is_delivery_of k) ds
any-pending k [] = refl
any-pending k (d ∷ ds) = ground (arith, any-pending k ds)

pending-OnePerSubscription :
    (ds : List DeliveryRow) → Separate ds → OnePerSubscription (map pending_delivery ds)
pending-OnePerSubscription [] o = tt
pending-OnePerSubscription (d ∷ ds) (n, o) =
    (any-pending d.subscription_id ds ∙ n, pending-OnePerSubscription ds o)

-- After any enqueuings, deletions, postponements and cancelled subscriptions, from a queue that has
-- each message once at most for a subscription, a batch of due deliveries has one delivery at most
-- of each subscription: deliveries that are carried out in parallel are of different subscriptions.
pub load_due_deliveries-OnePerSubscription :
    (s : Store) (cs : List QueueCall) (now limit : ℕ)
    → OncePerMessage s.deliveries
    → OnePerSubscription (load_due_deliveries now limit (queue_run s cs))
unfolding load_due_deliveries
load_due_deliveries-OnePerSubscription s cs now limit o =
    let queue = (queue_run s cs).deliveries in
    pending-OnePerSubscription (take limit (order_by by_attempt (retain (is_due now queue) queue)))
      (take-Separate limit (order_by by_attempt (retain (is_due now queue) queue)) (
        order_by-Separate (retain (is_due now queue) queue)
          (due-Separate now queue queue (λ p h. h) (queue_run-OncePerMessage s cs o))))
