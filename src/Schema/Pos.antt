-- ===== src/Schema/Pos.antt =====
-- Point-of-sale devices, cashier sessions and sale provenance.
use business_platform.Prelude.{ℕ, Option}
use business_platform.Schema.Types.{
  Key, Instant, Text, Currency, PosOperationType, PosOperationStatus, ResultCode, PosFeedKind,
  PosDeviceStatus, PosSessionStatus,
}

pub record PosDevice : Type 0 where
  pub id : Key
  pub tenant_id : Key
  pub store_id : Key
  pub name : Text
  pub status : PosDeviceStatus
  pub credential_hash : Text
  pub last_seen_at : Option Instant
  pub created_at : Instant
  pub updated_at : Instant

pub record PosSession : Type 0 where
  pub id : Key
  pub tenant_id : Key
  pub device_id : Key
  pub store_id : Key
  pub user_id : Key
  pub status : PosSessionStatus
  pub opened_at : Instant
  pub closed_at : Option Instant
  pub created_at : Instant
  pub updated_at : Instant

pub record PosSale : Type 0 where
  pub id : Key
  pub tenant_id : Key
  pub order_id : Key
  pub payment_id : Key
  pub session_id : Key
  pub device_id : Key
  pub store_id : Key
  pub user_id : Key
  pub created_at : Instant

-- A sale that a device recorded while it was offline.
pub record PosOperation : Type 0 where
  pub id : Key
  pub tenant_id : Key
  pub device_id : Key
  pub session_id : Key
  pub store_id : Key
  pub user_id : Key
  pub client_uuid : Key
  pub seq : ℕ
  pub operation_type : PosOperationType
  pub status : PosOperationStatus
  pub result_code : Option ResultCode
  pub result_order_id : Option Key
  pub result_payment_id : Option Key
  pub customer_id : Option Key
  pub processed_at : Option Instant
  pub created_at : Instant
  pub updated_at : Instant

pub record PosOperationItem : Type 0 where
  pub id : Key
  pub tenant_id : Key
  pub operation_id : Key
  pub variant_id : Key
  pub quantity : ℕ
  pub currency : Currency
  pub observed_unit_amount_minor : ℕ
  pub created_at : Instant
  pub updated_at : Instant

pub record PosFeedEvent : Type 0 where
  pub id : Key
  pub tenant_id : Key
  pub feed_seq : ℕ
  pub kind : PosFeedKind
  pub entity_id : Key
  pub created_at : Instant
