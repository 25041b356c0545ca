-- ===== src/Webhooks/Retries.antt =====
-- How often a delivery is tried.
use cowchat4win.Base.{
  ℕ, zero, suc, ◌+◌, ◌-◌, ◌*◌, ◌≤◌, String, ◌≡◌, refl, sym, ap, ◌∙◌, Option, none, some, List, [],
  ◌∷◌, arith, eq_iff, if◌then◌else◌, length, get_elem?, get_elem?_total, leb, Bool-cases,
  Option-cases, inl, inr,
}
use cowchat4win.Base.Tables.{find_row, update_where, delete_where}
use cowchat4win.Store.{Store, DeliveryRow, to_millis}
use cowchat4win.Store.Subscriptions.{
  has_delivery_id, pending_delivery, delete_delivery, reschedule_delivery, set_subscription_status,
}
use cowchat4win.Tombstones.{nanos_per_sec}
use cowchat4win.Webhooks.{retry_schedule_secs, failed, settle}

-- The delivery of that id fails at a time, for a reason.
abbrev pub fail_once : String → ℕ × String → Store → Store
fail_once id (now, why) s = elim (find_row (has_delivery_id id) s.deliveries) [
  | none ↦ s
  | some row ↦ settle now (pending_delivery row) (failed why) s
]

abbrev pub fail_each : String → List (ℕ × String) → Store → Store
fail_each id [] s = s
fail_each id (f ∷ fs) s = fail_each id fs (fail_once id f s)

abbrev pub attempts_of : String → Store → Option ℕ
attempts_of id s = elim (find_row (has_delivery_id id) s.deliveries) [
  | none ↦ none
  | some row ↦ some row.attempts
]

find_row-delete :
    (id : String) (ds : List DeliveryRow)
    → find_row (has_delivery_id id) (delete_where (has_delivery_id id) ds) ≡ none
unfolding find_row delete_where
find_row-delete id [] = refl
find_row-delete id (d ∷ ds) = ground (arith, find_row-delete id ds)

find_row-update :
    (id : String) (next attempts : ℕ) (why : String) (row : DeliveryRow) (ds : List DeliveryRow)
    → find_row (has_delivery_id id) ds ≡ some row
    → find_row (has_delivery_id id) (
        update_where
          (has_delivery_id id)
          (λ (d : DeliveryRow). record d {
            next_attempt_at = next;
            attempts = attempts;
            last_error = some why;
          })
          ds)
      ≡ some (record row { next_attempt_at = next; attempts = attempts; last_error = some why })
unfolding find_row update_where
find_row-update id next attempts why row [] h = cc
find_row-update id next attempts why row (d ∷ ds) h = elim (Bool-cases (has_delivery_id id d)) [
  | inl e ↦
      let both : some d ≡ some row = ground (arith, e, h) in
      let same : d ≡ row = cc in
      ground (
        arith,
        e,
        ap
            (λ (r : DeliveryRow). record r {
              next_attempt_at = next;
              attempts = attempts;
              last_error = some why;
            })
            same,
      )
  | inr e ↦ ground (arith, e, find_row-update id next attempts why row ds (ground (arith, e, h)))
]

beyond : (xs : List ℕ) (i : ℕ) → length xs ≤ i → get_elem? xs i ≡ none
beyond [] i h = refl
beyond (x ∷ xs) zero h = absurd (omega arith)
beyond (x ∷ xs) (suc i) h = beyond xs i (omega arith)

-- A failure counts one more attempt, or takes the delivery away.
attempts_of-fail_once :
    (id : String) (now : ℕ) (why : String) (row : DeliveryRow) (s : Store)
    → find_row (has_delivery_id id) s.deliveries ≡ some row
    → row.delivery_id ≡ id
    → attempts_of id (fail_once id (now, why) s)
      ≡ (if leb (suc row.attempts) 5 then some (suc row.attempts) else none)
unfolding settle reschedule_delivery delete_delivery set_subscription_status
attempts_of-fail_once id now why row s h name = elim (Bool-cases (leb (suc row.attempts) 5)) [
  | inl e ↦
      let (delay, there) =
        get_elem?_total retry_schedule_secs (row.attempts + 1 - 1) (ground (arith, e)) in
      let found =
        find_row-update id (to_millis (now + delay * nanos_per_sec)) (row.attempts + 1) why row
          s.deliveries h in
      rw (h, there, name, found, attempts_of, fail_once, settle) (ground (arith, e))
  | inr e ↦
      let gone = beyond retry_schedule_secs (row.attempts + 1 - 1) (ground (arith, e)) in
      rw (h, gone, name, find_row-delete id s.deliveries, attempts_of, fail_once, settle)
        (ground (arith, e))
]

find_row-id :
    (id : String) (row : DeliveryRow) (ds : List DeliveryRow)
    → find_row (has_delivery_id id) ds ≡ some row
    → row.delivery_id ≡ id
unfolding find_row
find_row-id id row [] h = cc
find_row-id id row (d ∷ ds) h = elim (Bool-cases (has_delivery_id id d)) [
  | inl e ↦
      let both : some d ≡ some row = ground (arith, e, h) in
      let same : d ≡ row = cc in
      ap (λ (r : DeliveryRow). r.delivery_id) (sym same) ∙ (eq_iff d.delivery_id id).0 e
  | inr e ↦ find_row-id id row ds (ground (arith, e, h))
]

gone_for_good :
    (id : String) (fs : List (ℕ × String)) (s : Store)
    → attempts_of id s ≡ none
    → attempts_of id (fail_each id fs s) ≡ none
gone_for_good id [] s h = h
gone_for_good id ((now, why) ∷ fs) s h =
    elim (Option-cases (find_row (has_delivery_id id) s.deliveries)) [
      | inl e ↦
          gone_for_good id fs (fail_once id (now, why) s)
            (rw (e, attempts_of, fail_once) (rw (e, attempts_of) refl))
      | inr (row, e) ↦ absurd (ground (arith, e, h))
    ]

-- A pending delivery whose attempts all fail counts them while they are five at most, over the
-- failures before; with the sixth it is gone, and stays so.
pub tried_six_times :
    (id : String) (fs : List (ℕ × String)) (n : ℕ) (s : Store)
    → attempts_of id s ≡ some n
    → n ≤ 5
    → attempts_of id (fail_each id fs s)
      ≡ (if leb (n + length fs) 5 then some (n + length fs) else none)
tried_six_times id [] n s h le = ground (arith, h)
tried_six_times id ((now, why) ∷ fs) n s h le =
    elim (Option-cases (find_row (has_delivery_id id) s.deliveries)) [
      | inl e ↦ absurd (ground (arith, e, h))
      | inr (row, e) ↦
          let count : row.attempts ≡ n = ground (arith, e, h) in
          let next = attempts_of-fail_once id now why row s e (find_row-id id row s.deliveries e) in
          elim (Bool-cases (leb (suc n) 5)) [
            | inl more ↦
                let rest =
                  tried_six_times id fs (suc n) (fail_once id (now, why) s)
                    (ground (arith, next, count, more)) (ground (arith, more)) in
                ground (arith, rest)
            | inr over ↦
                let rest =
                  gone_for_good id fs (fail_once id (now, why) s)
                    (ground (arith, next, count, over)) in
                ground (arith, rest, over)
          ]
    ]
