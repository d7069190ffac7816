-- ===== src/Table/State.antt =====
-- The documents of src/table/schemas, with the fields that the log services read or write.
use gitrema_backend.Prelude.{ℕ, ◌==◌, Bool, ◌&&◌, not, Option, none, some, List, is_some}
use gitrema_backend.Prelude.Action.{Action}

pub data TableStatus : Type 0 where
  empty in_use reserved : TableStatus

pub record TableLog : Type 0 where
  pub id : ℕ
  pub supplier_id : ℕ
  pub restaurant_id : ℕ
  pub table_id : Option ℕ
  pub waiter_id : Option ℕ
  pub orders : List ℕ
  pub starting_time : ℕ
  pub closing_time : Option ℕ
  pub menu_scanned_time : Option ℕ
  pub payment_needed : Bool
  pub help_needed : Bool
  pub item_ready : Bool
  pub order_ready : Bool

pub record Table : Type 0 where
  pub id : ℕ
  pub supplier_id : ℕ
  pub restaurant_id : ℕ
  pub status : TableStatus
  pub current_table_log : Option ℕ

-- The collections; `logs` is newest first. `boot_time` is when the schema was loaded: the default
-- of `startingTime` is `new Date()`, evaluated once.
pub record TableState : Type 0 where
  pub tables : List Table
  pub logs : List TableLog
  pub next_id : ℕ
  pub boot_time : ℕ

abbrev pub TableAction : Type 0 → Type 0
TableAction = Action TableState

abbrev pub is_table : ℕ → Table → Bool
is_table id t = t.id == id

abbrev pub is_log : ℕ → TableLog → Bool
is_log id l = l.id == id

abbrev pub same_table : Option ℕ → Option ℕ → Bool
same_table none none = Bool.true
same_table none (some _) = Bool.false
same_table (some _) none = Bool.false
same_table (some a) (some b) = a == b

-- The query `{ tableId, closingTime: null }`.
abbrev pub is_open_of : Option ℕ → TableLog → Bool
is_open_of table_id l = same_table l.table_id table_id && not (is_some l.closing_time)
