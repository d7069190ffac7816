-- ===== src/Table.antt =====
-- Tables and their logs (src/table).
mod State
mod Log
mod Helper
pub use State.*
pub use Log.*
pub use Helper.*
mod OpenCount
pub mod OpenLogs
pub mod Closing
mod Examples
