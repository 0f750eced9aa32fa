-- ===== src/Order.antt =====
-- src/order/order.service.ts: an order from explicit items or from the open cart, priced and
-- taken from a stock pool in one transaction, and its cancellation, which puts the stock back.
pub mod Defs
pub mod Pricing
pub mod Creating
pub mod Cancelling
pub mod Stock
pub mod Frames
pub mod Selling
pub mod Restocking
pub mod Written
pub mod Holding
pub mod Undoing
pub mod Totals
pub mod Listing
pub use Defs.*
unfoldable pub use Pricing.{price_lines}
unfoldable pub use Creating.{create_order, get_order}
unfoldable pub use Cancelling.{cancel_order}
