-- ===== src/Table/Log.antt =====
-- `current`, `logTable` and `updateLog` of src/table/table-log.service.ts.
use gitrema_backend.Prelude.{
  ℕ, suc, ◌==◌, Bool, false, not, ◌&&◌, ◌||◌, Option, none, some, List, [], ◌∷◌, filter, length,
  ltb,
}
use gitrema_backend.Prelude.Action.{
  Outcome, record_not_found, table_not_started, orders_pending_to_close, type_error, pure, gets,
  or_throw, throw_if, modify, ◌>>=◌, ◌>>◌,
}
use gitrema_backend.Prelude.Collection.{find, update_first, update_all}
use gitrema_backend.Order.Status.{is_ended, is_not_paid}
use gitrema_backend.Order.State.{Order}
use gitrema_backend.Cashier.{Request}
use gitrema_backend.Table.State.{
  TableStatus, empty, in_use, TableLog, Table, TableState, TableAction, is_table, is_log,
  same_table, is_open_of,
}

-- `$in`
abbrev pub is_one_of : List ℕ → ℕ → Bool
is_one_of [] id = false
is_one_of (x ∷ xs) id = (x == id) || is_one_of xs id

-- `findById` of a reference that may be `null`.
abbrev pub find_log : Option ℕ → List TableLog → Option TableLog
find_log none ls = none
find_log (some id) ls = find (is_log id) ls

abbrev pub find_table : Option ℕ → List Table → Option Table
find_table none ts = none
find_table (some id) ts = find (is_table id) ts

abbrev pub current_log_of : Option Table → Option ℕ
current_log_of none = none
current_log_of (some t) = t.current_table_log

-- `current`
unfoldable pub current : ℕ → TableAction TableLog
current table_id = do
  t ← gets (λ s. find (is_table table_id) s.tables)
  or_throw (← gets (λ s. find_log (current_log_of t) s.logs)) record_not_found

abbrev pub set_table : TableStatus → Option ℕ → Table → Table
set_table status log t = record t { status = status; current_table_log = log }

-- `findOneAndUpdate` with `upsert` and `sort: { _id: -1 }`: the newest open log of the table is
-- changed, or `fresh` is inserted. The log is returned.
abbrev pub upsert :
    Option ℕ → (TableLog → TableLog) → (ℕ → TableLog) → TableState → TableLog × TableState
upsert table_id change fresh s = elim (find (is_open_of table_id) s.logs) [
  | some l ↦ (change l, record s { logs = update_first (is_open_of table_id) change s.logs })
  | none ↦ (fresh s.next_id, record s { logs = fresh s.next_id ∷ s.logs; next_id = suc s.next_id })
]

-- The log that `logTable` inserts: `$setOnInsert` and the defaults of the schema.
abbrev pub started : Request → Table → ℕ → ℕ → TableLog
started req t boot id = record {
  id = id;
  supplier_id = t.supplier_id;
  restaurant_id = t.restaurant_id;
  table_id = some t.id;
  waiter_id = some req.user_id;
  orders = [];
  starting_time = boot;
  closing_time = none;
  menu_scanned_time = none;
  payment_needed = false;
  help_needed = false;
  item_ready = false;
  order_ready = false;
}

-- `findByIdAndUpdate(tableId, { status, currentTableLog })`; an identifier is unique.
abbrev pub point_table : Option ℕ → TableStatus → Option ℕ → TableState → TableState
point_table none status log s = s
point_table (some id) status log s = record s {
  tables = update_all (is_table id) (set_table status log) s.tables;
}

-- `logTable` with `start`.
unfoldable pub start_table : Request → ℕ → TableAction TableLog
start_table req table_id = do
  t ← or_throw (← gets (λ s. find (is_table table_id) s.tables)) type_error
  l ← (λ s.
      let (l, s') = upsert (some table_id) (λ l. l) (started req t s.boot_time) s in
      (Outcome.done l, s'))
  modify (point_table (some table_id) in_use (some l.id))
  pure l

-- An order of the log for which the table must wait.
abbrev pub is_pending : TableLog → Order → Bool
is_pending l o =
    is_not_paid o.payment_status
    && not (is_ended o.status)
    && same_table o.table_id l.table_id
    && is_one_of l.orders o.id

-- `logTable` without `start`: the table is closed, unless an order of its log is pending.
unfoldable pub stop_table : ℕ → ℕ → List Order → TableAction TableLog
stop_table table_id now orders = do
  t ← or_throw (← gets (λ s. find (is_table table_id) s.tables)) type_error
  l ← or_throw (← gets (λ s. find_log t.current_table_log s.logs)) table_not_started
  throw_if (ltb 0 (length (filter (is_pending l) orders))) orders_pending_to_close
  modify (λ s. record s {
    logs = update_first (is_log l.id) (λ m. record m { closing_time = some now }) s.logs;
  })
  modify (point_table (some table_id) empty none)
  pure (record l { closing_time = some now })

-- The body of `updateLog`; a field that is not given is not written.
pub record TableLogDto : Type 0 where
  pub menu_scanned_time : Option ℕ
  pub help_needed : Option Bool
  pub waiter_id : Option ℕ
  pub item_ready : Option Bool
  pub order_ready : Option Bool

abbrev pub given {ℓ} : {A : Type ℓ} → Option A → A → A
given none old = old
given (some a) old = a

abbrev pub apply_dto : TableLogDto → TableLog → TableLog
apply_dto dto l = record l {
  menu_scanned_time = elim dto.menu_scanned_time [ none ↦ l.menu_scanned_time | some t ↦ some t ];
  help_needed = given dto.help_needed l.help_needed;
  waiter_id = elim dto.waiter_id [ none ↦ l.waiter_id | some w ↦ some w ];
  item_ready = given dto.item_ready l.item_ready;
  order_ready = given dto.order_ready l.order_ready;
}

unfoldable pub update_log : ℕ → TableLogDto → TableAction TableLog
update_log table_id dto = do
  t ← gets (λ s. find (is_table table_id) s.tables)
  l ← or_throw (← gets (λ s. find_log (current_log_of t) s.logs)) table_not_started
  modify (λ s. record s { logs = update_first (is_log l.id) (apply_dto dto) s.logs })
  pure (apply_dto dto l)
