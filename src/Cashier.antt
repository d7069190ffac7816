-- ===== src/Cashier.antt =====
-- Cashiers and their shifts (src/cashier): the documents, the services, and what is proved.
mod State
mod Shift
mod Log
mod Resolve
pub mod Consistent
pub mod Consistency
pub mod Resolved
pub mod Reachable
pub mod Pauses
pub mod Dashboard
pub mod Defaults
mod Examples
pub use State.*
unfoldable pub use Shift.*
unfoldable pub use Log.*
unfoldable pub use Resolve.*
