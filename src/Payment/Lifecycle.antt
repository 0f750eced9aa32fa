-- ===== src/Payment/Lifecycle.antt =====
-- The life of a payment of src/payment/payment.service.ts: captured and failed are final.
use business_platform.Prelude.{
  Bool, List, arith, first, first-set_where, first_cases, inl, inr, refl, set_where, some, ◌&&◌,
  ◌==◌, ◌≡◌,
}
use business_platform.Prisma.{Prisma}
use business_platform.Schema.{Db, Key, Instant, Payment, PaymentStatus, OrderStatus}
use business_platform.Platform.{
  ok, err, conflict, captured_cannot_fail, failed_cannot_capture, within, payment_model,
  order_model,
}
use business_platform.Platform.Facts.{owned, owned_values, find_unique_eq, update_many_cases}
use business_platform.Payment.{
  Bool, PaymentSummary, to_summary, is_processing, is_pending, reread, capture_processing,
  capture_by_status, capture_payment_in, capture_payment, fail_processing, fail_by_status,
  fail_payment_in, fail_payment,
}

-- The payment `id` of tenant `t` is stored with the status `st`, and reads as `s`.
abbrev pub Shows : Key → Key → PaymentStatus → PaymentSummary → Db → Type 0
Shows t id st s db =
    (r : Payment) × (first (owned payment_model t (λ p. p.id == id)) db.payments ≡ some r)
    × (r.status ≡ st)
    × (to_summary r ≡ s)

-- The payment `id` if it is in processing, and the write of a status.
abbrev pub processing_row : Key → Key → Payment → Bool
processing_row t id = owned payment_model t (λ r. r.id == id && is_processing r.status)

abbrev pub with_status : Key → Instant → PaymentStatus → Payment → Payment
with_status t now st = owned_values payment_model t now (λ r. record r { status = st })

pub first-with_status :
    (t : Key) (now : Instant) (id : Key) (st : PaymentStatus) (rs : List Payment) (r : Payment)
    → first (owned payment_model t (λ p. p.id == id)) rs ≡ some r
    → r.status ≡ PaymentStatus.processing
    → first
        (owned payment_model t (λ p. p.id == id))
        (set_where (processing_row t id) (with_status t now st) rs)
      ≡ some (with_status t now st r)
first-with_status t now id st rs r e k =
    first-set_where (owned payment_model t (λ p. p.id == id)) (processing_row t id)
      (with_status t now st) (λ x h. ground arith) rs r e
      (ground (arith, first_cases (owned payment_model t (λ p. p.id == id)) rs))

module _ ⦃prisma : Prisma⦄ (t : Key) (now : Instant) (id : Key) (s : PaymentSummary) (db : Db) where
  capture_if_captured :
      Shows t id PaymentStatus.captured s db → capture_payment id (within t now) db ≡ (ok s, db)
  unfolding capture_payment capture_payment_in capture_by_status
  capture_if_captured (r, e, k, same) =
      ground (arith, find_unique_eq payment_model refl t now db (λ p. p.id == id))

  fail_if_captured :
      Shows t id PaymentStatus.captured s db
      → fail_payment id (within t now) db ≡ (err (conflict captured_cannot_fail), db)
  unfolding fail_payment fail_payment_in fail_by_status
  fail_if_captured (r, e, k, same) =
      ground (arith, find_unique_eq payment_model refl t now db (λ p. p.id == id))

  capture_if_failed :
      Shows t id PaymentStatus.failed s db
      → capture_payment id (within t now) db ≡ (err (conflict failed_cannot_capture), db)
  unfolding capture_payment capture_payment_in capture_by_status
  capture_if_failed (r, e, k, same) =
      ground (arith, find_unique_eq payment_model refl t now db (λ p. p.id == id))

  fail_if_failed :
      Shows t id PaymentStatus.failed s db → fail_payment id (within t now) db ≡ (ok s, db)
  unfolding fail_payment fail_payment_in fail_by_status
  fail_if_failed (r, e, k, same) =
      ground (arith, find_unique_eq payment_model refl t now db (λ p. p.id == id))

  reread-Shows :
      (st : PaymentStatus) (r : Payment) (db' : Db)
      → first (owned payment_model t (λ p. p.id == id)) db.payments ≡ some r
      → r.status ≡ st
      → reread id (within t now) db ≡ (ok s, db')
      → Shows t id st s db'
  unfolding reread
  reread-Shows st r db' e k h = (
    r,
    ground (arith, find_unique_eq payment_model refl t now db (λ p. p.id == id)),
    k,
    ground (arith, find_unique_eq payment_model refl t now db (λ p. p.id == id)),
  )

module _ ⦃prisma : Prisma⦄ (t : Key) (now : Instant) (id : Key) (s : PaymentSummary) where
  fail_processing-Shows :
      (r : Payment) (db : Db) {db' : Db}
      → first (owned payment_model t (λ p. p.id == id)) db.payments ≡ some r
      → r.status ≡ PaymentStatus.processing
      → fail_processing id (within t now) db ≡ (ok s, db')
      → Shows t id PaymentStatus.failed s db'
  unfolding fail_processing
  fail_processing-Shows r db {db'} e k h =
      elim (update_many_cases payment_model refl t now db
        (λ p. p.id == id && is_processing p.status)
        (λ p. record p { status = PaymentStatus.failed })) [
          | inr (x, failed) ↦ ground arith
          | inl (wrote, checked) ↦
              let table =
                set_where (processing_row t id) (with_status t now PaymentStatus.failed)
                  db.payments in
              let db1 : Db = record db { payments = table } in
              reread-Shows t now id s db1 PaymentStatus.failed
                (with_status t now PaymentStatus.failed r) db'
                (first-with_status t now id PaymentStatus.failed db.payments r e k) refl
                (ground arith)
        ]

  capture_processing-Shows :
      (r : Payment) (db : Db) {db' : Db}
      → first (owned payment_model t (λ p. p.id == id)) db.payments ≡ some r
      → r.status ≡ PaymentStatus.processing
      → capture_processing id r (within t now) db ≡ (ok s, db')
      → Shows t id PaymentStatus.captured s db'
  unfolding capture_processing
  capture_processing-Shows r db {db'} e k h =
      elim (update_many_cases payment_model refl t now db
        (λ p. p.id == id && is_processing p.status)
        (λ p. record p { status = PaymentStatus.captured })) [
          | inr (x, failed) ↦ ground arith
          | inl (wrote, checked) ↦
              let table =
                set_where (processing_row t id) (with_status t now PaymentStatus.captured)
                  db.payments in
              let db1 : Db = record db { payments = table } in
              elim (update_many_cases order_model refl t now db1
                (λ o. o.id == r.order_id && is_pending o.status)
                (λ o. record o { status = OrderStatus.paid })) [
                  | inr (x, failed) ↦ ground arith
                  | inl (paid, checked') ↦
                      let books =
                        set_where
                          (owned order_model t (λ o. o.id == r.order_id && is_pending o.status))
                          (owned_values order_model t now
                            (λ o. record o { status = OrderStatus.paid }))
                          db.orders in
                      reread-Shows t now id s (record db1 { orders = books }) PaymentStatus.captured
                        (with_status t now PaymentStatus.captured r) db'
                        (first-with_status t now id PaymentStatus.captured db.payments r e k) refl
                        (ground arith)
                ]
        ]

  capture_by_status-Shows :
      (st : PaymentStatus) (r : Payment) (db db' : Db)
      → first (owned payment_model t (λ p. p.id == id)) db.payments ≡ some r
      → r.status ≡ st
      → capture_by_status st id r (within t now) db ≡ (ok s, db')
      → Shows t id PaymentStatus.captured s db'
  unfolding capture_by_status
  capture_by_status-Shows PaymentStatus.captured r db db' e k h = (r, ground arith, k, ground arith)
  capture_by_status-Shows PaymentStatus.failed r db db' e k h = ground arith
  capture_by_status-Shows PaymentStatus.processing r db db' e k h =
      capture_processing-Shows r db e k h

  fail_by_status-Shows :
      (st : PaymentStatus) (r : Payment) (db db' : Db)
      → first (owned payment_model t (λ p. p.id == id)) db.payments ≡ some r
      → r.status ≡ st
      → fail_by_status st id r (within t now) db ≡ (ok s, db')
      → Shows t id PaymentStatus.failed s db'
  unfolding fail_by_status
  fail_by_status-Shows PaymentStatus.captured r db db' e k h = ground arith
  fail_by_status-Shows PaymentStatus.failed r db db' e k h = (r, ground arith, k, ground arith)
  fail_by_status-Shows PaymentStatus.processing r db db' e k h = fail_processing-Shows r db e k h

  capture_payment-Shows :
      (db : Db) {db' : Db}
      → capture_payment id (within t now) db ≡ (ok s, db')
      → Shows t id PaymentStatus.captured s db'
  unfolding capture_payment capture_payment_in
  capture_payment-Shows db {db'} h =
      let read = find_unique_eq payment_model refl t now db (λ p. p.id == id) in
      elim (first_cases (owned payment_model t (λ p. p.id == id)) db.payments) [
        | inl (none_there, k) ↦ ground arith
        | inr (r, e, i, k) ↦ capture_by_status-Shows r.status r db db' e refl (ground arith)
      ]

  fail_payment-Shows :
      (db : Db) {db' : Db}
      → fail_payment id (within t now) db ≡ (ok s, db')
      → Shows t id PaymentStatus.failed s db'
  unfolding fail_payment fail_payment_in
  fail_payment-Shows db {db'} h =
      let read = find_unique_eq payment_model refl t now db (λ p. p.id == id) in
      elim (first_cases (owned payment_model t (λ p. p.id == id)) db.payments) [
        | inl (none_there, k) ↦ ground arith
        | inr (r, e, i, k) ↦ fail_by_status-Shows r.status r db db' e refl (ground arith)
      ]

module _ ⦃prisma : Prisma⦄ (t : Key) (now later : Instant) (id : Key) where
  -- A payment that was captured stays captured: capturing it again, at any time, gives the same
  -- summary, and failing it is refused with a conflict, and neither changes anything.
  pub capture_payment-final :
      (db : Db) {s : PaymentSummary} {db' : Db}
      → capture_payment id (within t now) db ≡ (ok s, db')
      → (capture_payment id (within t later) db' ≡ (ok s, db'))
        × (fail_payment id (within t later) db' ≡ (err (conflict captured_cannot_fail), db'))
  capture_payment-final db {s} {db'} h =
      let shows = capture_payment-Shows t now id s db h in
      (capture_if_captured t later id s db' shows, fail_if_captured t later id s db' shows)

  -- A payment that was failed stays failed: failing it again, at any time, gives the same summary,
  -- and capturing it is refused with a conflict, and neither changes anything.
  pub fail_payment-final :
      (db : Db) {s : PaymentSummary} {db' : Db}
      → fail_payment id (within t now) db ≡ (ok s, db')
      → (fail_payment id (within t later) db' ≡ (ok s, db'))
        × (capture_payment id (within t later) db' ≡ (err (conflict failed_cannot_capture), db'))
  fail_payment-final db {s} {db'} h =
      let shows = fail_payment-Shows t now id s db h in
      (fail_if_failed t later id s db' shows, capture_if_failed t later id s db' shows)
