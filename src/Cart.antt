-- ===== src/Cart.antt =====
-- src/cart/cart.service.ts: the open cart of a member, and its lines.
pub mod Summary
pub mod Editing
pub mod Merging
