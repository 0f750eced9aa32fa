-- ===== src/Payment.antt =====
-- src/payment/payment.service.ts: the life of a payment, PROCESSING to CAPTURED or FAILED, and the
-- order that a capture marks as paid.
pub mod Lifecycle
pub mod Settlement
pub mod Paying
use business_platform.Prelude.{ℕ, Bool, true, false, ◌&&◌, ◌==◌, if◌then◌else◌}
use business_platform.Prisma.{Prisma}
use business_platform.Schema.{Key, Instant, Text, Currency, OrderStatus, Payment, PaymentStatus}
use business_platform.Platform.{
  not_found, conflict, type_error, order_not_found, not_pending, captured_exists, payment_not_found,
  already_captured, already_failed, failed_cannot_capture, captured_cannot_fail, Action, pure,
  throw, or_throw, throw_if, if_found, transaction, ◌>>=◌, ◌>>◌, require_tenant_id, find_unique,
  find_first, create, update_many, fresh_id, current_time, order_model, payment_model,
}

pub record PaymentSummary : Type 0 where
  pub id : Key
  pub tenant_id : Key
  pub order_id : Key
  pub status : PaymentStatus
  pub method : Text
  pub amount_minor : ℕ
  pub currency : Currency
  pub created_at : Instant
  pub updated_at : Instant

pub record CreatePaymentDto : Type 0 where
  pub order_id : Key
  pub method : Text

abbrev pub is_pending : OrderStatus → Bool
is_pending OrderStatus.pending = true
is_pending _ = false

abbrev pub is_processing : PaymentStatus → Bool
is_processing PaymentStatus.processing = true
is_processing _ = false

abbrev pub is_captured : PaymentStatus → Bool
is_captured PaymentStatus.captured = true
is_captured _ = false

abbrev pub to_summary : Payment → PaymentSummary
to_summary p = record {
  id = p.id;
  tenant_id = p.tenant_id;
  order_id = p.order_id;
  status = p.status;
  method = p.method;
  amount_minor = p.amount_minor;
  currency = p.currency;
  created_at = p.created_at;
  updated_at = p.updated_at;
}

module _ ⦃prisma : Prisma⦄ where
  unfoldable pub create_payment_in : CreatePaymentDto → Action PaymentSummary
  create_payment_in dto = do
    found ← find_unique order_model (λ r. r.id == dto.order_id)
    order ← or_throw found (not_found order_not_found)
    if is_pending order.status
        then (do
          existing ←
              find_first payment_model (λ r. r.order_id == dto.order_id && is_captured r.status)
          if_found existing
              (do
                id ← fresh_id
                now ← current_time
                payment ← create payment_model record {
                  id = id;
                  tenant_id = order.tenant_id;
                  order_id = dto.order_id;
                  status = PaymentStatus.processing;
                  method = dto.method;
                  amount_minor = order.subtotal_minor;
                  currency = order.currency;
                  created_at = now;
                  updated_at = now;
                }
                pure (to_summary payment))
              (λ p. throw (conflict captured_exists)))
        else throw (conflict not_pending)

  unfoldable pub create_payment : CreatePaymentDto → Action PaymentSummary
  unfolding create_payment_in
  create_payment dto = do require_tenant_id; transaction (create_payment_in dto)

  unfoldable pub get_payment : Key → Action PaymentSummary
  get_payment id = do
    require_tenant_id
    found ← find_unique payment_model (λ r. r.id == id)
    payment ← or_throw found (not_found payment_not_found)
    pure (to_summary payment)

  -- `findUnique` and `toSummary(updated!)`
  unfoldable pub reread : Key → Action PaymentSummary
  reread id = do
    found ← find_unique payment_model (λ r. r.id == id)
    updated ← or_throw found type_error
    pure (to_summary updated)

  -- The writes of a capture, once the payment is known to be in processing.
  unfoldable pub capture_processing : Key → Payment → Action PaymentSummary
  unfolding reread
  capture_processing id payment = do
    payments ←
        update_many payment_model (λ r. r.id == id && is_processing r.status)
          (λ r. record r { status = PaymentStatus.captured })
    throw_if (payments == 0) (conflict already_captured)
    orders ←
        update_many order_model (λ r. r.id == payment.order_id && is_pending r.status)
          (λ r. record r { status = OrderStatus.paid })
    throw_if (orders == 0) (conflict not_pending)
    reread id

  -- The branches on the status that was read.
  unfoldable pub capture_by_status : PaymentStatus → Key → Payment → Action PaymentSummary
  unfolding capture_processing
  capture_by_status PaymentStatus.captured id payment = pure (to_summary payment)
  capture_by_status PaymentStatus.failed id payment = throw (conflict failed_cannot_capture)
  capture_by_status PaymentStatus.processing id payment = capture_processing id payment

  unfoldable pub capture_payment_in : Key → Action PaymentSummary
  unfolding capture_by_status
  capture_payment_in id = do
    found ← find_unique payment_model (λ r. r.id == id)
    payment ← or_throw found (not_found payment_not_found)
    capture_by_status payment.status id payment

  unfoldable pub capture_payment : Key → Action PaymentSummary
  unfolding capture_payment_in
  capture_payment id = do require_tenant_id; transaction (capture_payment_in id)

  unfoldable pub fail_processing : Key → Action PaymentSummary
  unfolding reread
  fail_processing id = do
    updated ←
        update_many payment_model (λ r. r.id == id && is_processing r.status)
          (λ r. record r { status = PaymentStatus.failed })
    throw_if (updated == 0) (conflict already_failed)
    reread id

  unfoldable pub fail_by_status : PaymentStatus → Key → Payment → Action PaymentSummary
  unfolding fail_processing
  fail_by_status PaymentStatus.failed id payment = pure (to_summary payment)
  fail_by_status PaymentStatus.captured id payment = throw (conflict captured_cannot_fail)
  fail_by_status PaymentStatus.processing id payment = fail_processing id

  unfoldable pub fail_payment_in : Key → Action PaymentSummary
  unfolding fail_by_status
  fail_payment_in id = do
    found ← find_unique payment_model (λ r. r.id == id)
    payment ← or_throw found (not_found payment_not_found)
    fail_by_status payment.status id payment

  unfoldable pub fail_payment : Key → Action PaymentSummary
  unfolding fail_payment_in
  fail_payment id = do require_tenant_id; transaction (fail_payment_in id)
