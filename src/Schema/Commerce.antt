-- ===== src/Schema/Commerce.antt =====
-- Carts, orders and payments.
use business_platform.Prelude.{ℕ, Option}
use business_platform.Schema.Types.{
  Key, Instant, Text, Currency, CartStatus, OrderStatus, PaymentStatus,
}

pub record Cart : Type 0 where
  pub id : Key
  pub tenant_id : Key
  pub user_id : Key
  pub status : CartStatus
  pub created_at : Instant
  pub updated_at : Instant

pub record CartItem : Type 0 where
  pub id : Key
  pub tenant_id : Key
  pub cart_id : Key
  pub variant_id : Key
  pub quantity : ℕ  -- INTEGER, CHECK (> 0)
  pub created_at : Instant
  pub updated_at : Instant

pub record Order : Type 0 where
  pub id : Key
  pub tenant_id : Key
  pub user_id : Key
  pub customer_id : Option Key
  pub status : OrderStatus
  pub currency : Currency
  pub subtotal_minor : ℕ  -- BIGINT, CHECK (>= 0)
  pub cancelled_at : Option Instant
  pub created_at : Instant
  pub updated_at : Instant

pub record OrderItem : Type 0 where
  pub id : Key
  pub tenant_id : Key
  pub order_id : Key
  pub variant_id : Key
  pub product_name : Option Text  -- absent stands for the empty string
  pub variant_name : Option Text
  pub sku : Text
  pub quantity : ℕ
  pub currency : Currency
  pub unit_amount_minor : ℕ
  pub line_total_minor : ℕ
  pub created_at : Instant

pub record Payment : Type 0 where
  pub id : Key
  pub tenant_id : Key
  pub order_id : Key
  pub status : PaymentStatus
  pub method : Text
  pub amount_minor : ℕ
  pub currency : Currency
  pub created_at : Instant
  pub updated_at : Instant
