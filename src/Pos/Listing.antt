-- ===== src/Pos/Listing.antt =====
-- listDevices of src/pos/pos-device.service.ts and listSessionSales of src/pos/pos-sale.service.ts.
use business_platform.Prelude.{List, Option, [], ◌∷◌, map, ◌==◌}
use business_platform.Prisma.{Prisma}
use business_platform.Schema.{Key, Text, PosDevice, PosDeviceStatus, PosSale}
use business_platform.Platform.{
  Action, pure, or_throw, not_found, session_not_found, ◌>>=◌, ◌>>◌, require_tenant_id, find_unique,
  find_many_by, pos_device_model, pos_session_model, pos_sale_model,
}
use business_platform.Pagination.Listing.{
  Runtime, SortColumn, PageQuery, Paginated, list_rows, map_page, status_name, created_at_name,
  text_of, given_field, equals,
}
use business_platform.Order.{get_order}
use business_platform.Payment.{get_payment}
use business_platform.Pos.Device.{PosDeviceSummary, to_summary}
use business_platform.Pos.Sale
use business_platform.Pos.Sale.{PosSaleSummary}

pub record PosDeviceListQueryDto : Type 0 where
  pub page : PageQuery
  pub status : Option PosDeviceStatus

abbrev pub device_status_text : PosDeviceStatus → Text
device_status_text PosDeviceStatus.active = 1
device_status_text PosDeviceStatus.suspended = 2
device_status_text PosDeviceStatus.retired = 3

abbrev pub by_created_at : SortColumn PosDevice
by_created_at = record { name = created_at_name; primary = λ r. r.created_at; id = λ r. r.id }

module _ ⦃prisma : Prisma⦄ where
  unfoldable pub list_devices :
      ⦃runtime : Runtime⦄ → PosDeviceListQueryDto → Action (Paginated PosDeviceSummary)
  list_devices query = do
    let status = text_of device_status_text query.status
    page ←
        list_rows by_created_at pos_device_model (λ r. equals status (device_status_text r.status))
          ((status_name, given_field status) ∷ []) query.page
    pure (map_page (map to_summary) page)

  unfoldable pub project_sale : PosSale → Action PosSaleSummary
  project_sale sale = do
    order ← get_order sale.order_id
    payment ← get_payment sale.payment_id
    pure (Sale.to_summary sale order payment)

  unfoldable pub project_sales : List PosSale → Action (List PosSaleSummary)
  project_sales [] = pure []
  project_sales (s ∷ ss) = do
    summary ← project_sale s
    others ← project_sales ss
    pure (summary ∷ others)

  unfoldable pub list_session_sales : Key → Action (List PosSaleSummary)
  list_session_sales session_id = do
    require_tenant_id
    session ← find_unique pos_session_model (λ r. r.id == session_id)
    or_throw session (not_found session_not_found)
    sales ← find_many_by pos_sale_model (λ r. r.created_at) (λ r. r.session_id == session_id)
    project_sales sales
