-- ===== src/Menu.antt =====
-- Menu items and what an order's items are made of (src/menu/schemas, src/order/order-helper.service.ts).
mod State
mod Price
mod Prepare
mod Stock
pub mod Stocks
pub mod Prepared
pub mod Stocked
mod Examples
pub use State.*
unfoldable pub use Price.*
unfoldable pub use Prepare.*
unfoldable pub use Stock.*
