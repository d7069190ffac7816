-- ===== src/Order.antt =====
-- Orders and their money (src/order, src/payment, src/transaction): the enumerations.
pub mod Status
pub mod State
