-- ===== src/Kitchen.antt =====
-- The kitchen's time table: the scheduling half of src/order/calculation.service.ts.
mod State
mod Slot
mod Queue
pub mod Disjoint
pub mod Queried
pub mod Chain
mod Examples
pub use State.*
pub use Slot.*
pub use Queue.*
