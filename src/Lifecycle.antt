-- ===== src/Lifecycle.antt =====
-- The life of an order (src/order/order.service.ts and order-helper.service.ts): its changes of
-- status, its way through the kitchen, and the moving and grouping of its items.
mod State
mod Calls
mod Update
mod Cook
mod Move
mod Group
mod Runs
pub mod Transitions
pub mod Conserved
pub mod Moved
pub mod Together
pub mod Doubled
pub mod Grouped
pub mod Merged
pub mod Menu
pub mod Closed
pub mod Answers
pub mod History
mod Examples
mod MoveExamples
pub mod Cooked
pub mod Processed
pub mod Finishes
pub mod PaymentStatus
pub use State.*
unfoldable pub use Calls.*
unfoldable pub use Update.*
unfoldable pub use Cook.*
unfoldable pub use Move.*
unfoldable pub use Group.*
