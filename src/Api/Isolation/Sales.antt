-- ===== src/Api/Isolation/Sales.antt =====
-- Tenant isolation of src/pos/pos-sale.service.ts.
use business_platform.Prisma.{Prisma}
use business_platform.Schema.{Key, Instant}
use business_platform.Platform.{within}
use business_platform.Platform.Frames.{Keeps}
use business_platform.Platform.Isolation.{foreign, isolation}
use business_platform.Pos.Sale.{CreatePosSaleDto, SaleOptions, create_sale, get_sale}
use business_platform.Api.Isolation.Commerce.{
  create_order-isolated, get_order-isolated, create_payment-isolated, get_payment-isolated,
  capture_payment-isolated,
}

module _ ⦃prisma : Prisma⦄ (t : Key) (now : Instant) where
  ruleset commerce = (
    create_order-isolated, get_order-isolated, create_payment-isolated, get_payment-isolated,
    capture_payment-isolated,
  )

  pub create_sale-isolated :
      (user : Key) (dto : CreatePosSaleDto) (options : SaleOptions)
      → Keeps (within t now) (foreign t) (create_sale user dto options)
  unfolding create_sale
  create_sale-isolated user dto options = search (isolation, commerce) depth 25

  pub get_sale-isolated : (id : Key) → Keeps (within t now) (foreign t) (get_sale id)
  unfolding get_sale
  get_sale-isolated id = search (isolation, commerce) depth 15
