-- ===== src/Schema/Types.antt =====
-- Column types of prisma/schema.prisma: identifiers, instants, texts, and the enums.
use business_platform.Prelude.{ℕ}

-- A cuid or uuid, which the program only compares. 0 stands for the empty string, the one
-- identifier that is falsy.
abbrev pub Key : Type 0
Key = ℕ

-- Milliseconds since the epoch.
abbrev pub Instant : Type 0
Instant = ℕ

-- Free text that is stored and shown and never inspected, by number.
abbrev pub Text : Type 0
Text = ℕ

-- A CHAR(3) currency code, by number.
abbrev pub Currency : Type 0
Currency = ℕ

-- Every model of the schema, by name.
pub data ModelName : Type 0 where
  user tenant membership role permission role_permission refresh_token : ModelName
  store asset equipment customer reservation : ModelName
  category product product_variant price inventory cart cart_item order order_item payment :
      ModelName
  pos_device pos_session pos_sale pos_operation pos_operation_item pos_feed_event : ModelName
  service booking : ModelName

pub data VariantStatus : Type 0 where
  active archived : VariantStatus

pub data ProductStatus : Type 0 where
  draft active archived : ProductStatus

pub data CartStatus : Type 0 where
  opened converted : CartStatus

pub data OrderStatus : Type 0 where
  pending paid cancelled : OrderStatus

pub data PaymentStatus : Type 0 where
  processing captured failed : PaymentStatus

pub data ReservationStatus : Type 0 where
  reserved active completed cancelled : ReservationStatus

pub data ServiceStatus : Type 0 where
  draft active archived : ServiceStatus

pub data BookingStatus : Type 0 where
  booked confirmed active completed cancelled no_show : BookingStatus

pub data PosDeviceStatus : Type 0 where
  active suspended retired : PosDeviceStatus

pub data PosSessionStatus : Type 0 where
  opened closed : PosSessionStatus

pub data PosOperationType : Type 0 where
  sale_intent : PosOperationType

pub data PosOperationStatus : Type 0 where
  pending accepted duplicate rejected : PosOperationStatus

-- The typed outcomes of a synchronisation, in the text column `resultCode`.
pub data ResultCode : Type 0 where
  empty_intent variant_not_found variant_not_active currency_mix : ResultCode
  price_not_found price_changed out_of_stock : ResultCode

pub data PosFeedKind : Type 0 where
  product product_variant price deleted : PosFeedKind

pub data MembershipStatus : Type 0 where
  active invited suspended : MembershipStatus
