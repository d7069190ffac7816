-- ===== src/Payment.antt =====
-- Payments and refunds (src/payment, src/transaction): what they do to orders, transactions,
-- cashiers and tables.
mod State
mod Process
mod Service
mod Split
mod Defer
pub mod Totals
mod Sums
mod Checks
pub mod Requests
pub mod Bounds
pub mod Refunds
pub mod Deferred
pub mod Reachable
pub mod Shares
mod Examples
pub use State.*
pub use Process.*
pub use Service.*
pub use Split.*
pub use Defer.*
