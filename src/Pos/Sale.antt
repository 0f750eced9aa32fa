-- ===== src/Pos/Sale.antt =====
-- src/pos/pos-sale.service.ts: a sale through an open session, made of an order, a payment and a
-- provenance row.
use business_platform.Prelude.{
  Bool, List, Option, false, if◌then◌else◌, none, not, some, true, ℕ, ◌&&◌, ◌==◌,
}
use business_platform.Prisma.{Prisma}
use business_platform.Schema.{
  Key, Instant, Text, Currency, OrderStatus, PaymentStatus, PosSale, PosSession,
}
use business_platform.Platform.{
  not_found, conflict, device_not_active, session_not_found, session_not_open, sale_not_found,
  offline_must_be_cash, Action, pure, or_throw, throw_if, ◌>>=◌, ◌>>◌, require_tenant_id,
  current_time, find_unique, create, fresh_id, pos_device_model, pos_session_model, pos_sale_model,
}
use business_platform.Platform.Constraints.{is_opened}
use business_platform.Inventory
use business_platform.Order.{
  OrderItemInput, CreateOrderDto, CreateOrderOptions, OrderItemSummary, OrderSummary, create_order,
  get_order,
}
use business_platform.Payment.{PaymentSummary, create_payment, get_payment, capture_payment}
use business_platform.Pos.Session.{is_active}

-- The method 'CASH' or 'CARD'.
pub data Method : Type 0 where
  cash card : Method

abbrev pub method_text : Method → Text
method_text cash = 1
method_text card = 2

abbrev pub is_cash : Method → Bool
is_cash cash = true
is_cash card = false

pub record CreatePosSaleDto : Type 0 where
  pub session_id : Key
  pub items : List OrderItemInput
  pub method : Option Method
  pub customer_id : Option Key
  pub booking_id : Option Key

pub record SaleOptions : Type 0 where
  pub allow_closed_session : Bool
  pub offline : Bool

pub record PosSaleSummary : Type 0 where
  pub id : Key
  pub tenant_id : Key
  pub order_id : Key
  pub payment_id : Key
  pub session_id : Key
  pub device_id : Key
  pub store_id : Key
  pub user_id : Key
  pub order_status : OrderStatus
  pub payment_status : PaymentStatus
  pub method : Text
  pub currency : Currency
  pub subtotal_minor : ℕ
  pub items : List OrderItemSummary
  pub created_at : Instant

abbrev pub to_summary : PosSale → OrderSummary → PaymentSummary → PosSaleSummary
to_summary sale order payment = record {
  id = sale.id;
  tenant_id = sale.tenant_id;
  order_id = sale.order_id;
  payment_id = sale.payment_id;
  session_id = sale.session_id;
  device_id = sale.device_id;
  store_id = sale.store_id;
  user_id = sale.user_id;
  order_status = order.status;
  payment_status = payment.status;
  method = payment.method;
  currency = payment.currency;
  subtotal_minor = order.subtotal_minor;
  items = order.items;
  created_at = sale.created_at;
}

-- `dto.method ?? 'CASH'`
abbrev pub chosen_method : Option Method → Method
chosen_method none = cash
chosen_method (some m) = m

-- `dto.method !== undefined && dto.method !== 'CASH'`
abbrev pub not_cash : Option Method → Bool
not_cash none = false
not_cash (some m) = not (is_cash m)

-- The payload and the options that `createSale` hands to `OrderService.createOrder`. The booking
-- goes into the payload.
abbrev pub order_payload : CreatePosSaleDto → CreateOrderDto
order_payload dto = record {
  items = some dto.items;
  customer_id = dto.customer_id;
  booking_id = dto.booking_id;
}

abbrev pub order_options : PosSession → CreateOrderOptions
order_options session = record {
  inventory_scope = some (Inventory.store session.store_id);
  booking_id = none;
}

module _ ⦃prisma : Prisma⦄ where
  -- The session, if `user_id` may sell through it.
  unfoldable pub pos_context : Key → Key → SaleOptions → Action PosSession
  pos_context user_id session_id options = do
    found ← find_unique pos_session_model (λ r. r.id == session_id)
    session ← or_throw found (not_found session_not_found)
    throw_if (not (is_opened session.status) && not options.allow_closed_session)
        (conflict session_not_open)
    found_device ← find_unique pos_device_model (λ r. r.id == session.device_id)
    device ← or_throw found_device (not_found session_not_found)
    throw_if (not (is_active device.status)) (conflict device_not_active)
    throw_if (not (session.user_id == user_id)) (not_found session_not_found)
    pure session

  -- The payment, captured at once if it is cash, and the order as it is then.
  unfoldable pub settle :
      Method → OrderSummary → PaymentSummary → Action (OrderSummary × PaymentSummary)
  settle method order payment =
      if is_cash method
      then (do
        captured ← capture_payment payment.id
        current ← get_order order.id
        pure (current, captured))
      else pure (order, payment)

  -- The provenance row.
  unfoldable pub record_sale : Key → PosSession → OrderSummary → PaymentSummary → Action PosSale
  record_sale tenant_id session order payment = do
    id ← fresh_id
    now ← current_time
    create pos_sale_model record {
      id = id;
      tenant_id = tenant_id;
      order_id = order.id;
      payment_id = payment.id;
      session_id = session.id;
      device_id = session.device_id;
      store_id = session.store_id;
      user_id = session.user_id;
      created_at = now;
    }

  unfoldable pub create_sale : Key → CreatePosSaleDto → SaleOptions → Action PosSaleSummary
  unfolding pos_context settle record_sale
  create_sale user_id dto options = do
    tenant_id ← require_tenant_id
    throw_if (options.offline && not_cash dto.method) (conflict offline_must_be_cash)
    session ← pos_context user_id dto.session_id options
    order ← create_order user_id (order_payload dto) (order_options session)
    payment ←
        create_payment
          (record { order_id = order.id; method = method_text (chosen_method dto.method) })
    current ← settle (chosen_method dto.method) order payment
    sale ← record_sale tenant_id session order payment
    pure (to_summary sale current.0 current.1)

  unfoldable pub get_sale : Key → Action PosSaleSummary
  get_sale sale_id = do
    require_tenant_id
    found ← find_unique pos_sale_model (λ r. r.id == sale_id)
    sale ← or_throw found (not_found sale_not_found)
    order ← get_order sale.order_id
    payment ← get_payment sale.payment_id
    pure (to_summary sale order payment)
