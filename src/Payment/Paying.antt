-- ===== src/Payment/Paying.antt =====
-- That a pending order of src/payment/payment.service.ts can be paid.
use business_platform.Prelude.{
  Bool, List, ap, arith, count, count_pos, first, first-set_where, first_fits, inl, inr, none, refl,
  set_where, some, subst, suc, sym, ◌&&◌, ◌==◌, ◌∙◌, ◌∷◌, ◌≡◌,
}
use business_platform.Prisma.{Prisma}
use business_platform.Schema.{Db, Key, Instant, Order, OrderStatus, Payment, PaymentStatus}
use business_platform.Platform.{
  Action, Result, ok, err, within, fresh_id, payment_model, order_model, ◌>>=◌, create, pure,
}
use business_platform.Platform.Constraints.{order_check, payment_check}
use business_platform.Platform.Facts.{
  find_unique_eq, find_first_cases, create_cases, update_many_eq, owned,
}
use business_platform.Platform.Unique.{clash-set_where, some_row-count}
use business_platform.Payment.{
  CreatePaymentDto, PaymentSummary, to_summary, is_pending, is_processing, is_captured, reread,
  create_payment_in, create_payment, capture_processing, capture_by_status, capture_payment_in,
  capture_payment,
}
use business_platform.Payment.Lifecycle.{first-with_status, processing_row, with_status}
use business_platform.Payment.Settlement.{
  HasKeys, IsSettled, captured_of, to_pay, pay, payment_keys,
}

order_check-set_where :
    (w : Order → Bool) (f : Order → Order)
    → ((r : Order) → (f r).id ≡ r.id)
    → (rs : List Order) → order_check rs ≡ none
    → order_check (set_where w f rs) ≡ none
unfolding order_check
order_check-set_where w f same rs h =
    ground (arith, clash-set_where (λ (r : Order). r.id) w f same rs)

payment_check-set_where :
    (w : Payment → Bool) (f : Payment → Payment)
    → ((r : Payment) → (f r).id ≡ r.id)
    → (rs : List Payment) → payment_check rs ≡ none
    → payment_check (set_where w f rs) ≡ none
unfolding payment_check
payment_check-set_where w f same rs h =
    ground (arith, clash-set_where (λ (r : Payment). r.id) w f same rs)

module _ ⦃prisma : Prisma⦄ (t : Key) (now : Instant) (id : Key) (r : Payment) (o : Order) (db : Db)
    (keys : HasKeys db)
    (stored : first (owned payment_model t (λ p. p.id == id)) db.payments ≡ some r)
    (processing : r.status ≡ PaymentStatus.processing)
    (ordered : first (owned order_model t (λ x. x.id == r.order_id)) db.orders ≡ some o)
    (pending : o.status ≡ OrderStatus.pending) where
  abbrev captured_db : Db
  captured_db = record db {
    payments =
        set_where (processing_row t id) (with_status t now PaymentStatus.captured) db.payments;
    orders = set_where (to_pay t now id r) (pay t now id r) db.orders;
  }

  capture_processing-succeeds :
      capture_processing id r (within t now) db
      ≡ (ok (to_summary (with_status t now PaymentStatus.captured r)), captured_db)
  unfolding capture_processing reread
  capture_processing-succeeds =
      let db1 : Db = record db { payments = captured_db.payments } in
      let (i, fits) = first_fits (owned payment_model t (λ p. p.id == id)) db.payments r stored in
      let (j, fits') =
        first_fits (owned order_model t (λ x. x.id == r.order_id)) db.orders o ordered in
      let wrote =
        update_many_eq payment_model refl t now db (λ p. p.id == id && is_processing p.status)
          (λ p. record p { status = PaymentStatus.captured })
          (payment_check-set_where (processing_row t id) (with_status t now PaymentStatus.captured)
            (λ p. refl) db.payments keys.1) in
      let paid =
        update_many_eq order_model refl t now db1 (λ x. x.id == r.order_id && is_pending x.status)
          (λ x. record x { status = OrderStatus.paid })
          (order_check-set_where (to_pay t now id r) (pay t now id r) (λ x. refl) db.orders
            keys.0) in
      let some_payment = count_pos (processing_row t id) db.payments r i (ground arith) in
      let some_order = count_pos (to_pay t now id r) db.orders o j (ground arith) in
      let read = find_unique_eq payment_model refl t now captured_db (λ p. p.id == id) in
      ground
        (arith, first-with_status t now id PaymentStatus.captured db.payments r stored processing)

  capture_payment-succeeds :
      capture_payment id (within t now) db
      ≡ (ok (to_summary (with_status t now PaymentStatus.captured r)), captured_db)
  unfolding capture_payment capture_payment_in capture_by_status
  capture_payment-succeeds = ground (
    arith,
    find_unique_eq payment_model refl t now db (λ p. p.id == id),
    capture_processing-succeeds,
  )

  -- The order's row after the capture.
  paid_row :
      first (owned order_model t (λ x. x.id == r.order_id)) captured_db.orders
      ≡ some (pay t now id r o)
  paid_row =
      let (i, fits) =
        first_fits (owned order_model t (λ x. x.id == r.order_id)) db.orders o ordered in
      first-set_where (owned order_model t (λ x. x.id == r.order_id)) (to_pay t now id r)
        (pay t now id r) (λ x h. ground arith) db.orders o ordered (ground arith)

-- `createPayment` and then `capturePayment`, as `createSale` calls them.
abbrev pub pay_order : ⦃prisma : Prisma⦄ → CreatePaymentDto → Action PaymentSummary
pay_order dto = do payment ← create_payment dto; capture_payment payment.id

-- No payment has the next identifier yet.
abbrev pub IsFresh : ⦃prisma : Prisma⦄ → Db → Type 0
IsFresh ⦃prisma⦄ db = count (λ p. p.id == prisma.new_id db.generated) db.payments ≡ 0

module _ ⦃prisma : Prisma⦄ (t : Key) (now : Instant) (dto : CreatePaymentDto) (o : Order)
    (db : Db) where
  abbrev new_payment : Payment
  new_payment = record {
    id = prisma.new_id db.generated;
    tenant_id = t;
    order_id = dto.order_id;
    status = PaymentStatus.processing;
    method = dto.method;
    amount_minor = o.subtotal_minor;
    currency = o.currency;
    created_at = now;
    updated_at = now;
  }

  abbrev created_db : Db
  created_db = record db { payments = new_payment ∷ db.payments; generated = suc db.generated }

  -- The order is paid with its subtotal, and nothing else of it is changed.
  abbrev pub Pays : Result PaymentSummary × Db → Type 0
  Pays (ok s, db') =
      (s.status ≡ PaymentStatus.captured)
      × (s.order_id ≡ dto.order_id)
      × (s.amount_minor ≡ o.subtotal_minor)
      × (first (owned order_model t (λ x. x.id == dto.order_id)) db'.orders
          ≡ some (record o { status = OrderStatus.paid; updated_at = now }))
  Pays (err e, db') = ⊥

  module _ (keys : HasKeys db) (settled : IsSettled t db) (fresh : IsFresh db)
      (ordered : first (owned order_model t (λ x. x.id == dto.order_id)) db.orders ≡ some o)
      (pending : o.status ≡ OrderStatus.pending) where
    checked : payment_check (new_payment ∷ db.payments) ≡ none
    unfolding payment_check
    checked = ground (
      arith,
      some_row-count (λ (p : Payment). p.id) (prisma.new_id db.generated) db.payments fresh,
      payment_keys db.payments keys.1,
    )

    -- An order that is not paid has no captured payment.
    none_captured : count (captured_of t dto.order_id) db.payments ≡ 0
    none_captured =
        let (i, fits) =
          first_fits (owned order_model t (λ x. x.id == dto.order_id)) db.orders o ordered in
        let same : o.id ≡ dto.order_id = ground arith in
        subst (λ k. count (captured_of t k) db.payments ≡ 0) same
          (ground (arith, settled o i (ground arith)))

    of_tenant : o.tenant_id ≡ t
    of_tenant =
        ground
          (arith, first_fits (owned order_model t (λ x. x.id == dto.order_id)) db.orders o ordered)

    payment_made :
        create payment_model
          (record new_payment { tenant_id = o.tenant_id })
          (within t now)
          (record db { generated = suc db.generated })
        ≡ (ok new_payment, created_db)
    payment_made = ground (
      arith,
      create_cases payment_model refl t now (record db { generated = suc db.generated })
          (record new_payment { tenant_id = o.tenant_id }),
      checked,
    )

    create_payment_in-succeeds :
        create_payment_in dto (within t now) db ≡ (ok (to_summary new_payment), created_db)
    unfolding create_payment_in fresh_id
    create_payment_in-succeeds =
        let read = find_unique_eq order_model refl t now db (λ x. x.id == dto.order_id) in
        elim (find_first_cases payment_model refl t now db
          (λ p. p.order_id == dto.order_id && is_captured p.status)) [
            | inr (p, found, i, h) ↦
                ground
                  (arith, none_captured, count_pos (captured_of t dto.order_id) db.payments p i h)
            | inl (found, k) ↦
                let step : Action PaymentSummary =
                  create payment_model (record new_payment { tenant_id = o.tenant_id })
                  >>= λ payment. pure (to_summary payment) in
                let next : Db = record db { generated = suc db.generated } in
                let made : step (within t now) next ≡ (ok (to_summary new_payment), created_db) =
                  ground (arith, payment_made) in
                let out : create_payment_in dto (within t now) db ≡ step (within t now) next =
                  ground arith in
                out ∙ made
          ]

    create_payment-succeeds :
        create_payment dto (within t now) db ≡ (ok (to_summary new_payment), created_db)
    unfolding create_payment
    create_payment-succeeds = ground (arith, create_payment_in-succeeds)

    -- A pending order can be paid: the creation of a payment of it succeeds, and so does the capture
    -- of that payment, which returns the captured payment of the order's subtotal; the order's row
    -- is then paid, and nothing else of it has changed but the time of its update. That is so
    -- where the tables have their primary keys, each paid order of the tenant has exactly one
    -- captured payment and each unpaid one has none, and no payment has the identifier that the new
    -- one gets.
    pub pay_order-Pays : Pays (pay_order dto (within t now) db)
    pay_order-Pays =
        let id = prisma.new_id db.generated in
        let keys' : HasKeys created_db = (keys.0, checked) in
        let stored : first (owned payment_model t (λ p. p.id == id)) created_db.payments
            ≡ some new_payment =
          ground arith in
        let captured =
          capture_payment-succeeds t now id new_payment o created_db keys' stored refl ordered
            pending in
        let out : pay_order dto (within t now) db ≡ capture_payment id (within t now) created_db =
          ground (arith, create_payment-succeeds) in
        let paid : some (pay t now id new_payment o)
            ≡ some (record o { status = OrderStatus.paid; updated_at = now }) =
          ap (λ k. some (record o { status = OrderStatus.paid; updated_at = now; tenant_id = k }))
            (sym of_tenant) in
        subst Pays (sym (out ∙ captured)) (
          refl,
          refl,
          refl,
          paid_row t now id new_payment o created_db keys' stored refl ordered pending ∙ paid,
        )
