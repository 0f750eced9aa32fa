-- ===== src/Order/Listing.antt =====
-- listOrders of src/order/order.service.ts.
use business_platform.Prelude.{List, Option, [], ◌∷◌, ◌==◌}
use business_platform.Prisma.{Prisma}
use business_platform.Schema.{Text, Order, OrderStatus}
use business_platform.Platform.{Action, pure, ◌>>=◌, find_many_by, order_model, order_item_model}
use business_platform.Pagination.Listing.{
  Runtime, SortColumn, PageQuery, Paginated, list_rows, status_name, created_at_name, text_of,
  given_field, equals,
}
use business_platform.Order.Defs.{OrderSummary, to_summary}

pub record OrderListQueryDto : Type 0 where
  pub page : PageQuery
  pub status : Option OrderStatus

abbrev pub order_status_text : OrderStatus → Text
order_status_text OrderStatus.pending = 1
order_status_text OrderStatus.paid = 2
order_status_text OrderStatus.cancelled = 3

abbrev pub by_created_at : SortColumn Order
by_created_at = record { name = created_at_name; primary = λ r. r.created_at; id = λ r. r.id }

module _ ⦃prisma : Prisma⦄ where
  -- The loop over the orders of the page, which reads their items.
  unfoldable pub with_items : List Order → Action (List OrderSummary)
  with_items [] = pure []
  with_items (o ∷ os) = do
    items ← find_many_by order_item_model (λ r. r.created_at) (λ r. r.order_id == o.id)
    others ← with_items os
    pure (to_summary o items ∷ others)

  unfoldable pub list_orders :
      ⦃runtime : Runtime⦄ → OrderListQueryDto → Action (Paginated OrderSummary)
  list_orders query = do
    let status = text_of order_status_text query.status
    page ←
        list_rows by_created_at order_model (λ r. equals status (order_status_text r.status))
          ((status_name, given_field status) ∷ []) query.page
    summaries ← with_items page.rows
    pure record { rows = summaries; next_cursor = page.next_cursor }
