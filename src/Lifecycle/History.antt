-- ===== src/Lifecycle/History.antt =====
-- The statuses that an order passes through in a sequence of updates of
-- src/order/order.service.ts.
use gitrema_backend.Prelude.{ℕ, ◌==◌, ◌≡◌, true, false, List, [], ◌∷◌}
use gitrema_backend.Order.Status.{OrderStatus}
use gitrema_backend.Lifecycle.Closed.{Request}
use gitrema_backend.Lifecycle.Answers.{Answer}

-- A sequence of requests leads the order `id` from one status to another, with one answer to each
-- request that names it.
pub data History (id : ℕ) : List Request → OrderStatus → OrderStatus → Type 0 where
  ended : {a : OrderStatus} → History id [] a a
  to_other :
      {r : Request} {rs : List Request} {a b : OrderStatus}
      → (r.id == id) ≡ false
      → History id rs a b
      → History id (r ∷ rs) a b
  answered :
      {r : Request} {rs : List Request} {a b c : OrderStatus}
      → (r.id == id) ≡ true
      → Answer r a b
      → History id rs b c
      → History id (r ∷ rs) a c
