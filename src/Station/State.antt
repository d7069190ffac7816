-- ===== src/Station/State.antt =====
-- src/kitchen-queue/schemas/kitchen-queue-log.schema.ts, and the collection of its documents.
use gitrema_backend.Prelude.{ℕ, ◌==◌, Bool, Option, List}
use gitrema_backend.Prelude.Action.{Action}
use gitrema_backend.Cashier.{PausedLog}

pub record KitchenQueueLog : Type 0 where
  pub id : ℕ
  pub supplier_id : ℕ
  pub kitchen_queue_id : ℕ
  pub started_at : ℕ
  pub closed_at : Option ℕ
  pub paused_logs : List PausedLog

-- `logs` is newest first.
pub record StationState : Type 0 where
  pub logs : List KitchenQueueLog
  pub next_id : ℕ

abbrev pub StationAction : Type 0 → Type 0
StationAction = Action StationState

-- The query `{ kitchenQueueId }`.
abbrev pub of_queue : ℕ → KitchenQueueLog → Bool
of_queue qid l = l.kitchen_queue_id == qid
