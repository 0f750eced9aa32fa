-- ===== src/Platform/Constraints.antt =====
-- The constraints that the migrations under prisma/migrations declare, as tests on whole tables.
-- Foreign keys are left out where the services look the referenced rows up before they write. As in
-- PostgreSQL, a value that does not fit its column and a CHECK are found before an index.
use business_platform.Prelude.{
  ℕ, Bool, true, false, Option, none, some, List, [], ◌∷◌, ◌&&◌, ◌||◌, ◌==◌, ◌*◌, leb, ltb, not,
  same_option,
}
use business_platform.Prisma.{
  DbError, p2002, client_uuid, exclusion_violation, check_violation, out_of_range, other_columns,
}
use business_platform.Schema.{
  Category, Product, RolePermission, PosDevice, PosOperation, PosOperationItem, Membership, Role,
  Key, Instant, Inventory, Order, Payment, Cart, CartItem, OrderItem, Reservation,
  ReservationStatus, Booking, BookingStatus, PosSession, PosSessionStatus, PosSale,
}

module _ {Row : Type 0} where
  abbrev pub some_row : (Row → Bool) → List Row → Bool
  some_row w [] = false
  some_row w (r ∷ rs) = w r || some_row w rs

  -- Two rows of the table clash: a unique index or an exclusion constraint is violated.
  abbrev pub clash : (Row → Row → Bool) → List Row → Bool
  clash c [] = false
  clash c (r ∷ rs) = some_row (c r) rs || clash c rs

-- One constraint after the other.
abbrev pub violated : Bool → DbError → Option DbError → Option DbError
violated true e rest = some e
violated false e rest = rest

-- `@id`
abbrev pub primary_key : {Row : Type 0} → (Row → Key) → List Row → Option DbError → Option DbError
primary_key id rs rest = violated (clash (λ a b. id a == id b) rs) (p2002 other_columns) rest

abbrev pub int4_max : ℕ
int4_max = 2147483647

-- `Inventory_variantId_global_key` and `Inventory_storeId_variantId_key`.
abbrev pub same_pool : Inventory → Inventory → Bool
same_pool a b = a.variant_id == b.variant_id && same_option a.store_id b.store_id

unfoldable pub inventory_check : List Inventory → Option DbError
inventory_check rs =
    violated (some_row (λ r. ltb int4_max r.quantity_on_hand) rs) out_of_range
      (primary_key (λ r. r.id) rs (violated (clash same_pool rs) (p2002 other_columns) none))

-- The statuses that hold the equipment.
abbrev pub holds_equipment : ReservationStatus → Bool
holds_equipment ReservationStatus.reserved = true
holds_equipment ReservationStatus.active = true
holds_equipment ReservationStatus.completed = false
holds_equipment ReservationStatus.cancelled = false

-- `tsrange(startAt, endAt, '[)') && tsrange(…)`, for two ranges that are not empty.
abbrev pub intervals_meet : Instant → Instant → Instant → Instant → Bool
intervals_meet s e s' e' = ltb s e' && ltb s' e

-- The EXCLUDE constraint of 20260821020000_add_reservation_domain.
abbrev pub reservations_clash : Reservation → Reservation → Bool
reservations_clash a b =
    (holds_equipment a.status && holds_equipment b.status)
    && (a.equipment_id == b.equipment_id && intervals_meet a.start_at a.end_at b.start_at b.end_at)

unfoldable pub reservation_check : List Reservation → Option DbError
reservation_check rs =
    violated (some_row (λ r. leb r.end_at r.start_at) rs) check_violation
      (primary_key (λ r. r.id) rs (violated (clash reservations_clash rs) exclusion_violation none))

abbrev pub holds_service : BookingStatus → Bool
holds_service BookingStatus.booked = true
holds_service BookingStatus.confirmed = true
holds_service BookingStatus.active = true
holds_service _ = false

-- The EXCLUDE constraint of 20260821180000_add_booking.
abbrev pub bookings_clash : Booking → Booking → Bool
bookings_clash a b =
    (holds_service a.status && holds_service b.status)
    && (a.service_id == b.service_id && intervals_meet a.start_at a.end_at b.start_at b.end_at)

-- `Booking_orderId_key`, which is partial: it covers the bookings with an order.
abbrev pub same_order : Booking → Booking → Bool
same_order a b = elim a.order_id [ none ↦ false | some o ↦ same_option b.order_id (some o) ]

unfoldable pub booking_check : List Booking → Option DbError
booking_check rs = violated (some_row (λ r. leb r.end_at r.start_at) rs) check_violation (
    primary_key (λ r. r.id) rs
      (violated (clash same_order rs) (p2002 other_columns)
        (violated (clash bookings_clash rs) exclusion_violation none)))

abbrev pub is_opened : PosSessionStatus → Bool
is_opened PosSessionStatus.opened = true
is_opened PosSessionStatus.closed = false

-- `PosSession_one_open_per_device`.
abbrev pub sessions_clash : PosSession → PosSession → Bool
sessions_clash a b = (is_opened a.status && is_opened b.status) && a.device_id == b.device_id

-- Closed before it was opened.
abbrev pub ends_early : PosSession → Bool
ends_early s = elim s.closed_at [ none ↦ false | some t ↦ ltb t s.opened_at ]

unfoldable pub pos_session_check : List PosSession → Option DbError
pos_session_check rs =
    violated (some_row ends_early rs) check_violation
      (primary_key (λ r. r.id) rs (violated (clash sessions_clash rs) (p2002 other_columns) none))

-- `PosSale_orderId_key` and `PosSale_paymentId_key`.
abbrev pub sales_clash : PosSale → PosSale → Bool
sales_clash a b = a.order_id == b.order_id || a.payment_id == b.payment_id

unfoldable pub pos_sale_check : List PosSale → Option DbError
pos_sale_check rs =
    primary_key (λ r. r.id) rs (violated (clash sales_clash rs) (p2002 other_columns) none)

unfoldable pub cart_item_check : List CartItem → Option DbError
cart_item_check rs = violated (some_row (λ r. ltb int4_max r.quantity) rs) out_of_range (
    violated (some_row (λ r. r.quantity == 0) rs) check_violation (
      primary_key (λ r. r.id) rs
        (violated (clash (λ a b. a.cart_id == b.cart_id && a.variant_id == b.variant_id) rs)
          (p2002 other_columns) none)))

-- `OrderItem_quantity_check` and `OrderItem_lineTotal_check`.
unfoldable pub order_item_check : List OrderItem → Option DbError
order_item_check rs = violated (some_row (λ r. ltb int4_max r.quantity) rs) out_of_range (
    violated
      (some_row
        (λ r. r.quantity == 0 || not (r.line_total_minor == r.quantity * r.unit_amount_minor)) rs)
      check_violation (primary_key (λ r. r.id) rs none))

unfoldable pub order_check : List Order → Option DbError
order_check rs = primary_key (λ r. r.id) rs none

unfoldable pub payment_check : List Payment → Option DbError
payment_check rs = primary_key (λ r. r.id) rs none

unfoldable pub cart_check : List Cart → Option DbError
cart_check rs = primary_key (λ r. r.id) rs none

-- A table that no modelled operation writes.
abbrev pub unchecked : {Row : Type 0} → List Row → Option DbError
unchecked rs = none

-- `PosDevice_tenantId_name_key` and `PosDevice_credentialHash_key`.
abbrev pub devices_clash : PosDevice → PosDevice → Bool
devices_clash a b =
    (a.tenant_id == b.tenant_id && a.name == b.name) || a.credential_hash == b.credential_hash

unfoldable pub pos_device_check : List PosDevice → Option DbError
pos_device_check rs =
    primary_key (λ r. r.id) rs (violated (clash devices_clash rs) (p2002 other_columns) none)

-- `PosOperation_deviceId_clientUuid_key` and `PosOperation_deviceId_seq_key`.
abbrev pub same_client_uuid : PosOperation → PosOperation → Bool
same_client_uuid a b = a.device_id == b.device_id && a.client_uuid == b.client_uuid

abbrev pub same_seq : PosOperation → PosOperation → Bool
same_seq a b = a.device_id == b.device_id && a.seq == b.seq

unfoldable pub pos_operation_check : List PosOperation → Option DbError
pos_operation_check rs = violated (some_row (λ r. ltb int4_max r.seq) rs) out_of_range (
    violated (some_row (λ r. r.seq == 0) rs) check_violation (
      primary_key (λ r. r.id) rs
        (violated (clash same_client_uuid rs) (p2002 client_uuid)
          (violated (clash same_seq rs) (p2002 other_columns) none))))

unfoldable pub pos_operation_item_check : List PosOperationItem → Option DbError
pos_operation_item_check rs = violated (some_row (λ r. ltb int4_max r.quantity) rs) out_of_range (
    violated (some_row (λ r. r.quantity == 0) rs) check_violation (primary_key (λ r. r.id) rs none))

-- `Category_tenantId_name_key`.
unfoldable pub category_check : List Category → Option DbError
category_check rs =
    primary_key (λ r. r.id) rs
      (violated (clash (λ a b. a.tenant_id == b.tenant_id && a.name == b.name) rs)
        (p2002 other_columns) none)

-- `Product_tenantId_code_key`.
unfoldable pub product_check : List Product → Option DbError
product_check rs =
    primary_key (λ r. r.id) rs
      (violated (clash (λ a b. a.tenant_id == b.tenant_id && a.code == b.code) rs)
        (p2002 other_columns) none)

-- `Membership_userId_tenantId_key`.
unfoldable pub membership_check : List Membership → Option DbError
membership_check rs =
    primary_key (λ r. r.id) rs
      (violated (clash (λ a b. a.user_id == b.user_id && a.tenant_id == b.tenant_id) rs)
        (p2002 other_columns) none)

-- `Role_tenantId_key_key`.
unfoldable pub role_check : List Role → Option DbError
role_check rs =
    primary_key (λ r. r.id) rs
      (violated (clash (λ a b. a.tenant_id == b.tenant_id && a.key == b.key) rs)
        (p2002 other_columns) none)

-- `@@id([roleId, permissionId])`
unfoldable pub role_permission_check : List RolePermission → Option DbError
role_permission_check rs =
    violated (clash (λ a b. a.role_id == b.role_id && a.permission_id == b.permission_id) rs)
      (p2002 other_columns) none
