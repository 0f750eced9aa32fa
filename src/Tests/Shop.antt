-- ===== src/Tests/Shop.antt =====
-- A shop that the tests run on: tenant 7 with a store, two variants, a pending order of two
-- units, a payment of it, a POS session, a booking
-- and a reservation, a cart, an offline sale, a feed of changes, and a member who may sell at the
-- till; and another tenant, 8, with a pool of its own.
use business_platform.Platform.Constraints.{inventory_check}
use business_platform.Inventory.Stock.{IsConsistent}
use business_platform.Prelude.{List, [], false, none, some, ◌∷◌, refl}
use business_platform.Schema.{
  Order, Payment, PaymentStatus, ReservationStatus, PosSessionStatus, PosDeviceStatus, Db, empty_db,
  VariantStatus, ProductStatus, OrderStatus, BookingStatus, CartStatus, PosOperation,
  PosOperationType, PosOperationStatus, PosFeedKind, MembershipStatus,
}
use business_platform.Order.{OrderItemInput, CreateOrderDto}
use business_platform.Reservation.{CreateReservationDto, Timestamp}
use business_platform.Pos.Sale.{CreatePosSaleDto, SaleOptions, Method}

-- The pending order, and a payment of it.
abbrev pub pending_order : Order
pending_order = record {
  id = 51;
  tenant_id = 7;
  user_id = 3;
  customer_id = none;
  status = OrderStatus.pending;
  currency = 840;
  subtotal_minor = 500;
  cancelled_at = none;
  created_at = 100;
  updated_at = 100;
}

abbrev pub processing_payment : Payment
processing_payment = record {
  id = 81;
  tenant_id = 7;
  order_id = 51;
  status = PaymentStatus.processing;
  method = 1;
  amount_minor = 500;
  currency = 840;
  created_at = 100;
  updated_at = 100;
}

-- A sale that device 71 recorded in session 72, at a price that is not the server's.
abbrev pub offline_sale : PosOperation
offline_sale = record {
  id = 73;
  tenant_id = 7;
  device_id = 71;
  session_id = 72;
  store_id = 1;
  user_id = 3;
  client_uuid = 4001;
  seq = 1;
  operation_type = PosOperationType.sale_intent;
  status = PosOperationStatus.pending;
  result_code = none;
  result_order_id = none;
  result_payment_id = none;
  customer_id = none;
  processed_at = none;
  created_at = 150;
  updated_at = 150;
}

abbrev pub shop : Db
shop = record empty_db {
  stores = record { id = 1; tenant_id = 7 } ∷ [];
  customers = record { id = 2; tenant_id = 7 } ∷ [];
  categories =
      record {
        id = 12;
        tenant_id = 7;
        name = 510;
        description = none;
        created_at = 80;
        updated_at = 80;
      }
      ∷ [];
  products =
      record {
        id = 11;
        tenant_id = 7;
        category_id = some 12;
        name = 501;
        code = 511;
        description = none;
        status = ProductStatus.active;
        created_at = 80;
        updated_at = 80;
      }
      ∷ [];
  variants =
      record {
        id = 21;
        tenant_id = 7;
        product_id = 11;
        sku = 601;
        name = none;
        status = VariantStatus.active;
      }
      ∷ record {
        id = 22;
        tenant_id = 7;
        product_id = 11;
        sku = 602;
        name = some 502;
        status = VariantStatus.active;
      }
      ∷ [];
  prices =
      record { id = 31; tenant_id = 7; variant_id = 21; currency = 840; amount_minor = 250 }
      ∷ record { id = 32; tenant_id = 7; variant_id = 22; currency = 840; amount_minor = 40 }
      ∷ [];
  inventories =
      record {
        id = 41;
        tenant_id = 7;
        variant_id = 21;
        store_id = none;
        quantity_on_hand = 10;
        created_at = 100;
        updated_at = 100;
      }
      ∷ record {
        id = 42;
        tenant_id = 7;
        variant_id = 21;
        store_id = some 1;
        quantity_on_hand = 4;
        created_at = 100;
        updated_at = 100;
      }
      ∷ record {
        id = 43;
        tenant_id = 8;
        variant_id = 23;
        store_id = none;
        quantity_on_hand = 6;
        created_at = 100;
        updated_at = 100;
      }
      ∷ [];
  orders = pending_order ∷ [];
  order_items =
      record {
        id = 52;
        tenant_id = 7;
        order_id = 51;
        variant_id = 21;
        product_name = some 501;
        variant_name = none;
        sku = 601;
        quantity = 2;
        currency = 840;
        unit_amount_minor = 250;
        line_total_minor = 500;
        created_at = 100;
      }
      ∷ [];
  payments = processing_payment ∷ [];
  equipments = record { id = 91; tenant_id = 7 } ∷ [];
  reservations =
      record {
        id = 92;
        tenant_id = 7;
        customer_id = 2;
        equipment_id = 91;
        start_at = 1000;
        end_at = 2000;
        status = ReservationStatus.reserved;
        notes = none;
        created_at = 100;
        updated_at = 100;
      }
      ∷ [];
  bookings =
      record {
        id = 61;
        tenant_id = 7;
        service_id = 62;
        customer_id = some 2;
        order_id = none;
        start_at = 1000;
        end_at = 2000;
        status = BookingStatus.confirmed;
        created_at = 100;
        updated_at = 100;
      }
      ∷ [];
  pos_devices =
      record {
        id = 71;
        tenant_id = 7;
        store_id = 1;
        name = 503;
        status = PosDeviceStatus.active;
        credential_hash = 900;
        last_seen_at = none;
        created_at = 100;
        updated_at = 100;
      }
      ∷ [];
  pos_sessions =
      record {
        id = 72;
        tenant_id = 7;
        device_id = 71;
        store_id = 1;
        user_id = 3;
        status = PosSessionStatus.opened;
        opened_at = 100;
        closed_at = none;
        created_at = 100;
        updated_at = 100;
      }
      ∷ [];
  carts =
      record {
        id = 75;
        tenant_id = 7;
        user_id = 3;
        status = CartStatus.opened;
        created_at = 100;
        updated_at = 100;
      }
      ∷ [];
  cart_items =
      record {
        id = 76;
        tenant_id = 7;
        cart_id = 75;
        variant_id = 21;
        quantity = 1;
        created_at = 100;
        updated_at = 100;
      }
      ∷ [];
  pos_operations = offline_sale ∷ [];
  pos_operation_items =
      record {
        id = 74;
        tenant_id = 7;
        operation_id = 73;
        variant_id = 21;
        quantity = 2;
        currency = 840;
        observed_unit_amount_minor = 200;
        created_at = 150;
        updated_at = 150;
      }
      ∷ [];
  pos_feed_events =
      record {
        id = 77;
        tenant_id = 7;
        feed_seq = 5;
        kind = PosFeedKind.price;
        entity_id = 31;
        created_at = 100;
      }
      ∷ record {
        id = 78;
        tenant_id = 8;
        feed_seq = 5;
        kind = PosFeedKind.price;
        entity_id = 33;
        created_at = 100;
      }
      ∷ [];
  memberships =
      record {
        id = 65;
        user_id = 3;
        tenant_id = 7;
        role_id = 66;
        status = MembershipStatus.active;
        created_at = 100;
        updated_at = 100;
      }
      ∷ [];
  roles =
      record {
        id = 66;
        tenant_id = 7;
        key = 504;
        name = 505;
        description = none;
        is_system = false;
        created_at = 100;
        updated_at = 100;
      }
      ∷ [];
  permissions = record { id = 67; key = 49; name = 506; description = none; category = none } ∷ [];
  role_permissions = record { role_id = 66; permission_id = 67 } ∷ [];
  generated = 100;
}

-- Two units of variant 21 and three of 22, in three items.
abbrev pub three_items : List OrderItemInput
three_items =
    record { variant_id = 21; quantity = 1 }
    ∷ record { variant_id = 22; quantity = 3 }
    ∷ record { variant_id = 21; quantity = 1 }
    ∷ []

-- Two units of variant 21, in two items.
abbrev pub two_items : List OrderItemInput
two_items = record { variant_id = 21; quantity = 1 } ∷ record { variant_id = 21; quantity = 1 } ∷ []

abbrev pub order_of : List OrderItemInput → CreateOrderDto
order_of items = record { items = some items; customer_id = some 2; booking_id = none }

-- A sale in session 72 that names booking 61.
abbrev pub booked_sale : CreatePosSaleDto
booked_sale = record {
  session_id = 72;
  items = two_items;
  method = some Method.cash;
  customer_id = some 2;
  booking_id = some 61;
}

abbrev pub online : SaleOptions
online = record { allow_closed_session = false; offline = false }

-- Equipment 91 from 2000 to 3000, right after what is reserved.
abbrev pub next_slot : CreateReservationDto
next_slot = record {
  customer_id = 2;
  equipment_id = 91;
  start_at = Timestamp.iso 2000;
  end_at = Timestamp.iso 3000;
  notes = none;
}

pub shop-IsConsistent : IsConsistent shop
unfolding inventory_check
shop-IsConsistent = refl
