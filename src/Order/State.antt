-- ===== src/Order/State.antt =====
-- The fields of an order (src/order/schemas/order.schema.ts) that payments and tables use.
use gitrema_backend.Prelude.{ℕ, ◌==◌, Bool, Option, List, none, some}
use gitrema_backend.Prelude.Int.{ℤ, pos}
use gitrema_backend.Order.Status.{OrderStatus, OrderPaymentStatus, PreparationStatus}

-- The amounts of `summary` that change after the order was placed, and what it costs.
pub record Summary : Type 0 where
  pub total_with_tax : ℤ
  pub total_paid : ℤ
  pub total_refunded : ℤ
  pub remaining_amount_to_collect : ℤ

pub record Order : Type 0 where
  pub id : ℕ
  pub supplier_id : ℕ
  pub restaurant_id : ℕ
  pub table_id : Option ℕ
  pub waiter_id : Option ℕ
  pub cashier_id : Option ℕ
  pub status : OrderStatus
  pub payment_status : OrderPaymentStatus
  -- `preparationStatus` of each item
  pub items : List PreparationStatus
  pub tip : Option ℤ
  pub summary : Summary
  pub transactions : List ℕ
  pub payment_time : Option ℕ

-- `order.tip ?? 0`
abbrev pub tip_or_zero : Option ℤ → ℤ
tip_or_zero none = pos 0
tip_or_zero (some t) = t

abbrev pub has_id : ℕ → Order → Bool
has_id id o = o.id == id
