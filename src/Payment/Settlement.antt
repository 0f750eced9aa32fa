-- ===== src/Payment/Settlement.antt =====
-- That an order of src/payment/payment.service.ts is paid once: it is paid if and only if one of
-- its payments is captured, and never two are.
use business_platform.Prelude.{
  Bool, Bool-cases, In, List, ap, arith, count, count_pos, false, first, first_cases, if◌then◌else◌,
  inl, inr, none, refl, set_where, some, subst, sym, true, ◌&&◌, ◌==◌, ◌∙◌, ◌≡◌, ◌≢◌, ◌≤◌,
}
use business_platform.Prisma.{Prisma}
use business_platform.Schema.{Db, Key, Instant, Order, OrderStatus, Payment, PaymentStatus}
use business_platform.Platform.{Result, ok, err, Outcome-cases, within, payment_model, order_model}
use business_platform.Platform.Constraints.{order_check, payment_check}
use business_platform.Platform.Facts.{find_unique_eq, update_many_cases, owned, owned_values}
use business_platform.Platform.Unique.{
  IsKeyed, same_row, count_le_one, count-set_where_gain, count-set_where_same, In-set_where,
}
use business_platform.Payment.{
  is_processing, PaymentSummary, to_summary, reread, capture_processing, capture_by_status,
  capture_payment_in, capture_payment, Prisma, Bool, is_captured, is_pending,
}
use business_platform.Payment.Lifecycle.{first-with_status, processing_row, with_status}

abbrev pub is_paid : OrderStatus → Bool
is_paid OrderStatus.paid = true
is_paid _ = false

-- The captured payments of an order.
abbrev pub captured_of : Key → Key → Payment → Bool
captured_of t order = owned payment_model t (λ p. p.order_id == order && is_captured p.status)

-- Each order of tenant `t` has one captured payment if it is paid, and none if it is not.
abbrev pub AreSettled : Key → List Order → List Payment → Type 0
AreSettled t orders payments =
    (o : Order)
    → In o orders
    → o.tenant_id ≡ t
    → count (captured_of t o.id) payments ≡ (if is_paid o.status then 1 else 0)

abbrev pub IsSettled : Key → Db → Type 0
IsSettled t db = AreSettled t db.orders db.payments

-- The tables have their primary keys.
abbrev pub HasKeys : Db → Type 0
HasKeys db = (order_check db.orders ≡ none) × (payment_check db.payments ≡ none)

pub order_keys : (rs : List Order) → order_check rs ≡ none → IsKeyed (λ o. o.id) rs
unfolding order_check
order_keys rs h = ground arith

pub payment_keys : (rs : List Payment) → payment_check rs ≡ none → IsKeyed (λ p. p.id) rs
unfolding payment_check
payment_keys rs h = ground arith

module _ (t : Key) (now : Instant) (id : Key) (r : Payment) where
  abbrev to_capture : Payment → Bool
  to_capture = processing_row t id

  abbrev capture : Payment → Payment
  capture = with_status t now PaymentStatus.captured

  abbrev pub to_pay : Order → Bool
  to_pay = owned order_model t (λ o. o.id == r.order_id && is_pending o.status)

  abbrev pub pay : Order → Order
  pay = owned_values order_model t now (λ o. record o { status = OrderStatus.paid })

  -- An order that the capture does not pay is another one.
  not_payable :
      (orders : List Order)
      → IsKeyed (λ o. o.id) orders
      → 1 ≤ count to_pay orders
      → (o : Order) → In o orders
      → to_pay o ≡ false
      → o.id ≢ r.order_id
  not_payable orders keyed some_paid o i h e = elim (first_cases to_pay orders) [
    | inl (none_there, k) ↦ omega (arith, k, some_paid)
    | inr (p, found, j, k) ↦
        let same : p ≡ o = same_row (λ x. x.id) orders p o keyed j i (ground (arith, k)) in
        ground (arith, ap to_pay same)
  ]

  module _ (payments : List Payment) (keyed : IsKeyed (λ p. p.id) payments) (there : In r payments)
      (fits : to_capture r ≡ true) where
    -- The payment is the one that a capture writes.
    only_row : (x : Payment) → In x payments → to_capture x ≡ true → x ≡ r
    only_row x i h = same_row (λ p. p.id) payments x r keyed i there (ground arith)

    captured_gain :
        count (captured_of t r.order_id) payments ≡ 0
        → count (captured_of t r.order_id) (set_where to_capture capture payments) ≡ 1
    captured_gain zero_before = omega (
      arith,
      count-set_where_gain (captured_of t r.order_id) to_capture capture payments
          (λ x i h. ground (arith, ap (λ p. p.order_id) (only_row x i h))),
      count_le_one (λ p. p.id) to_capture id (λ x h. ground arith) payments keyed,
      count_pos to_capture payments r there fits,
    )

    captured_same :
        (order : Key)
        → order ≢ r.order_id
        → count (captured_of t order) (set_where to_capture capture payments)
          ≡ count (captured_of t order) payments
    captured_same order apart =
        count-set_where_same (captured_of t order) to_capture capture payments
          (λ x i h. ground (arith, ap (λ p. p.order_id) (only_row x i h)))

    settled_after :
        (orders : List Order)
        → IsKeyed (λ o. o.id) orders
        → 1 ≤ count to_pay orders
        → AreSettled t orders payments
        → AreSettled t (set_where to_pay pay orders) (set_where to_capture capture payments)
    settled_after orders order_keyed some_paid settled o' i' tenant =
        let (o, i, how) = In-set_where to_pay pay orders o' i' in
        elim how [
          | inl (h, e) ↦
              let same : o.id ≡ r.order_id = ground arith in
              let before : count (captured_of t o.id) payments ≡ 0 =
                ground (arith, settled o i (ground arith)) in
              let after =
                captured_gain (subst (λ k. count (captured_of t k) payments ≡ 0) same before) in
              subst
                (λ (x : Order).
                  count (captured_of t x.id) (set_where to_capture capture payments)
                  ≡ (if is_paid x.status then 1 else 0))
                (sym e)
                (subst (λ k. count (captured_of t k) (set_where to_capture capture payments) ≡ 1)
                  (sym same) after)
          | inr (h, e) ↦
              subst
                (λ (x : Order).
                  count (captured_of t x.id) (set_where to_capture capture payments)
                  ≡ (if is_paid x.status then 1 else 0))
                (sym e)
                (captured_same o.id (not_payable orders order_keyed some_paid o i h)
                  ∙ settled o i (ap (λ x. x.tenant_id) (sym e) ∙ tenant))
        ]

module _ ⦃prisma : Prisma⦄ (t : Key) (now : Instant) (id : Key) (db : Db) (keys : HasKeys db)
    (settled : IsSettled t db) where
  -- If the step returns, the orders are settled.
  abbrev Leaves : Result PaymentSummary × Db → Type 0
  Leaves (ok s, db') = IsSettled t db'
  Leaves (err e, db') = Unit {0}

  module _ (r : Payment)
      (found : first (owned payment_model t (λ p. p.id == id)) db.payments ≡ some r)
      (there : In r db.payments) (fits : owned payment_model t (λ p. p.id == id) r ≡ true) where
    capture_processing-Leaves :
        r.status ≡ PaymentStatus.processing → Leaves (capture_processing id r (within t now) db)
    unfolding capture_processing reread
    capture_processing-Leaves k =
        elim (update_many_cases payment_model refl t now db
          (λ p. p.id == id && is_processing p.status)
          (λ p. record p { status = PaymentStatus.captured })) [
            | inr (x, failed) ↦ ground arith
            | inl (wrote, checked) ↦
                let table = set_where (to_capture t now id r) (capture t now id r) db.payments in
                let db1 : Db = record db { payments = table } in
                elim (update_many_cases order_model refl t now db1
                  (λ o. o.id == r.order_id && is_pending o.status)
                  (λ o. record o { status = OrderStatus.paid })) [
                    | inr (x, failed) ↦ ground arith
                    | inl (paid, checked') ↦
                        let books = set_where (to_pay t now id r) (pay t now id r) db.orders in
                        let reread_there =
                          find_unique_eq payment_model refl t now (record db1 { orders = books })
                            (λ p. p.id == id) in
                        elim (Bool-cases (count (to_pay t now id r) db.orders == 0)) [
                          | inl none_paid ↦ ground arith
                          | inr some_paid ↦
                              let row : to_capture t now id r r ≡ true = ground arith in
                              let out : capture_processing id r (within t now) db ≡ (
                                ok (to_summary (capture t now id r r)),
                                record db1 { orders = books },
                              ) =
                                ground (
                                  arith,
                                  count_pos (to_capture t now id r) db.payments r there row,
                                  first-with_status t now id PaymentStatus.captured db.payments r
                                      found k,
                                ) in
                              subst Leaves (sym out) (
                                settled_after t now id r db.payments
                                  (payment_keys db.payments keys.1) there row db.orders
                                  (order_keys db.orders keys.0) (ground arith) settled)
                        ]
                  ]
          ]

    capture_by_status-Leaves :
        (st : PaymentStatus) → r.status ≡ st → Leaves (capture_by_status st id r (within t now) db)
    unfolding capture_by_status
    capture_by_status-Leaves PaymentStatus.captured k = settled
    capture_by_status-Leaves PaymentStatus.failed k = tt
    capture_by_status-Leaves PaymentStatus.processing k = capture_processing-Leaves k

  capture_payment_in-Leaves : Leaves (capture_payment_in id (within t now) db)
  unfolding capture_payment_in
  capture_payment_in-Leaves =
      let read = find_unique_eq payment_model refl t now db (λ p. p.id == id) in
      elim (first_cases (owned payment_model t (λ p. p.id == id)) db.payments) [
        | inl (none_there, k) ↦ ground arith
        | inr (r, e, i, k) ↦
            let out : capture_payment_in id (within t now) db
                ≡ capture_by_status r.status id r (within t now) db =
              ground arith in
            subst Leaves (sym out) (capture_by_status-Leaves r e i k r.status refl)
      ]

  -- Capturing a payment keeps the orders of its tenant settled, if they were: whether it succeeds or
  -- fails, a paid order has exactly one captured payment and an unpaid one has none, so an order is
  -- never charged twice.
  pub capture_payment-IsSettled : IsSettled t (capture_payment id (within t now) db).1
  unfolding capture_payment
  capture_payment-IsSettled = elim (Outcome-cases (capture_payment_in id (within t now) db)) [
    | inl (s, db', e) ↦
        let out : capture_payment id (within t now) db ≡ (ok s, db') = ground arith in
        subst (λ o. IsSettled t o.1) (sym out) (subst Leaves e capture_payment_in-Leaves)
    | inr (x, db', e) ↦
        let out : capture_payment id (within t now) db ≡ (err x, db) = ground arith in
        subst (λ o. IsSettled t o.1) (sym out) settled
  ]
