-- ===== src/Orders.antt =====
-- The orders: src/orders/orders.service.ts. `Pricing` is the price of a checkout, `Items` the rows of
-- its items, `Lifecycle` what becomes of an order.
pub mod Pricing
pub mod Checkout
pub mod Items
pub mod Price
pub mod Lifecycle
pub mod RollBack
pub mod Cancel
pub mod Calls
pub mod Balanced
mod Tests
