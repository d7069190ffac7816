-- ===== src/Pricing.antt =====
-- The price of an order: the summary half of src/order/calculation.service.ts.
mod State
mod Summary
pub use State.*
unfoldable pub use Summary.*
pub mod Amounts
pub mod Discounts
mod Examples
