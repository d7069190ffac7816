-- ===== src/Table/Examples.antt =====
-- A table with one order, and what is proved of it.
use gitrema_backend.Prelude.{ℕ, ◌≡◌, refl, false, none, some, List, [], ◌∷◌, arith, All}
use gitrema_backend.Prelude.Int.{pos}
use gitrema_backend.Prelude.Collection.{find}
use gitrema_backend.Order.Status.{OrderStatus, OrderPaymentStatus, PreparationStatus}
use gitrema_backend.Order.State.{Order}
use gitrema_backend.Cashier.{Request}
use gitrema_backend.Table.State.{empty, in_use, TableLog, Table, TableState, is_log, is_table}
use gitrema_backend.Table.Log.{stop_table, find_log, is_pending}
use gitrema_backend.Table.OpenLogs.{TableCall, serve_all, serve_all-OneOpen}
use gitrema_backend.Table.OpenCount.{OneOpen}
use gitrema_backend.Table.Closing.{stop_table_lem}

abbrev corner : Table
corner = record {
  id = 1;
  supplier_id = 9;
  restaurant_id = 5;
  status = empty;
  current_table_log = none;
}

abbrev window : Table
window = record {
  id = 2;
  supplier_id = 9;
  restaurant_id = 5;
  status = empty;
  current_table_log = none;
}

abbrev free_tables : TableState
free_tables = record { tables = corner ∷ window ∷ []; logs = []; next_id = 20; boot_time = 0 }

abbrev waiter : Request
waiter = record { user_id = 4; supplier_id = 9; is_customer = false }

abbrev meal : OrderPaymentStatus → Order
meal payment = record {
  id = 30;
  supplier_id = 9;
  restaurant_id = 5;
  table_id = some 1;
  waiter_id = some 4;
  cashier_id = none;
  status = OrderStatus.sent_to_kitchen;
  payment_status = payment;
  items = PreparationStatus.not_started ∷ [];
  tip = none;
  summary = record {
    total_with_tax = pos 4_000;
    total_paid = pos 0;
    total_refunded = pos 0;
    remaining_amount_to_collect = pos 4_000;
  };
  transactions = [];
  payment_time = none;
}

abbrev unpaid_meal : Order
unpaid_meal = meal OrderPaymentStatus.not_paid

abbrev paid_meal : Order
paid_meal = meal OrderPaymentStatus.paid

-- The table is started, gets the order, is not closed while it is unpaid; the order moves.
abbrev an_evening : List (TableCall × ℕ)
an_evening =
    (TableCall.start_call waiter 1, 100)
    ∷ (TableCall.add_call unpaid_meal (unpaid_meal ∷ []), 200)
    ∷ (TableCall.stop_call 1 (unpaid_meal ∷ []), 300)
    ∷ (
      TableCall.transfer_call (record unpaid_meal { table_id = some 2 }) (some 1)
          (unpaid_meal ∷ []),
      400,
    )
    ∷ (TableCall.stop_call 1 [], 500)
    ∷ (TableCall.start_call waiter 1, 600)
    ∷ []

free_tables-OneOpen : OneOpen free_tables
free_tables-OneOpen i = omega arith

serve_all-OneOpen_example : OneOpen (serve_all an_evening free_tables)
serve_all-OneOpen_example = serve_all-OneOpen an_evening free_tables free_tables-OneOpen

-- The corner table with its log, and the order on it.
abbrev corner_log : TableLog
corner_log = record {
  id = 20;
  supplier_id = 9;
  restaurant_id = 5;
  table_id = some 1;
  waiter_id = some 4;
  orders = 30 ∷ [];
  starting_time = 0;
  closing_time = none;
  menu_scanned_time = none;
  payment_needed = false;
  help_needed = false;
  item_ready = false;
  order_ready = false;
}

abbrev occupied : TableState
occupied = record {
  tables = record corner { status = in_use; current_table_log = some 20 } ∷ window ∷ [];
  logs = corner_log ∷ [];
  next_id = 21;
  boot_time = 0;
}

stop_table_lem_example :
    let s' = (stop_table 1 500 (paid_meal ∷ []) occupied).1 in
    (t t' : Table) × (l : TableLog) × (find (is_table 1) occupied.tables ≡ some t)
    × (find_log t.current_table_log occupied.logs ≡ some l)
    × All (λ o. is_pending l o ≡ false) (paid_meal ∷ [])
    × (find (is_log l.id) s'.logs ≡ some (record l { closing_time = some 500 }))
    × (find (is_table 1) s'.tables ≡ some t')
    × (t'.status ≡ empty)
    × (t'.current_table_log ≡ none)
unfolding stop_table
stop_table_lem_example =
    stop_table_lem 1 500 (paid_meal ∷ []) occupied (record corner_log { closing_time = some 500 })
      refl
