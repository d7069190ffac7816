-- ===== src/Table/OpenLogs.antt =====
-- How many logs of a table are open, under all the operations of src/table/table-log.service.ts and
-- src/table/table-helper.service.ts.
use gitrema_backend.Prelude.{
  ℕ, refl, ap, inl, inr, Option, some, List, [], ◌∷◌, arith, Bool-cases, Option-cases, filter,
  length, eq_of_==, ltb,
}
use gitrema_backend.Prelude.Collection.{find, find_sound}
use gitrema_backend.Order.State.{Order}
use gitrema_backend.Cashier.{Request}
use gitrema_backend.Table.State.{in_use, TableLog, TableState, is_log, is_table}
use gitrema_backend.Table.Log.{
  upsert, started, point_table, start_table, stop_table, update_log, TableLogDto, apply_dto,
  find_log, find_table, current_log_of, is_pending,
}
use gitrema_backend.Table.Helper.{
  push_order, pull_order, started_by, save_table_log, refresh_payment_needed, handle_payment_needed,
  leave_table, add_order_to_table_log_with_auto_start, handle_table_transfer, handle_ready_flag,
  payment_needed_of, is_status_done, has_done_item, served,
}
use gitrema_backend.Table.OpenCount.{
  OneOpen, Harmless, save-OneOpen, point_table-OneOpen, upsert-OneOpen, optional-OneOpen,
}

refresh-OneOpen :
    (orders : List Order) (l : TableLog) (s : TableState)
    → OneOpen s
    → OneOpen (refresh_payment_needed orders l s)
unfolding refresh_payment_needed
refresh-OneOpen orders l s one =
    save-OneOpen (is_log l.id) (λ m. record m { payment_needed = payment_needed_of l orders }) s
      (λ i m h. h) one

handle_payment_needed-OneOpen :
    (orders : List Order) (id : ℕ) (s : TableState)
    → OneOpen s
    → OneOpen (handle_payment_needed orders id s)
unfolding handle_payment_needed
handle_payment_needed-OneOpen orders id s one =
    optional-OneOpen (find_log (current_log_of (find (is_table id) s.tables)) s.logs) s
      (λ l. refresh_payment_needed orders l s) one (λ l. refresh-OneOpen orders l s one)

add_order-OneOpen :
    (o : Order) (now : ℕ) (orders : List Order) (s : TableState)
    → OneOpen s
    → OneOpen (add_order_to_table_log_with_auto_start o now orders s)
unfolding add_order_to_table_log_with_auto_start
add_order-OneOpen o now orders s one =
    let (l, s') = upsert o.table_id (push_order o.id) (started_by o now) s in
    refresh-OneOpen orders l (point_table o.table_id in_use (some l.id) s') (
      point_table-OneOpen o.table_id in_use (some l.id) s' (
        upsert-OneOpen o.table_id (push_order o.id) (started_by o now) s (λ i m h. h) (λ n. refl)
          one))

leave_table-OneOpen :
    (o : Order) (source : Option ℕ) (orders : List Order) (s : TableState)
    → OneOpen s
    → OneOpen (leave_table o source orders s)
unfolding leave_table
leave_table-OneOpen o source orders s one =
    optional-OneOpen (find_log (current_log_of (find_table source s.tables)) s.logs) s
      (λ l.
        refresh_payment_needed orders (pull_order o.id l) (save_table_log l.id (pull_order o.id) s))
      one
      (λ l.
        refresh-OneOpen orders (pull_order o.id l) (save_table_log l.id (pull_order o.id) s)
          (save-OneOpen (is_log l.id) (pull_order o.id) s (λ i m h. h) one))

handle_table_transfer-OneOpen :
    (o : Order) (source : Option ℕ) (now : ℕ) (orders : List Order) (s : TableState)
    → OneOpen s
    → OneOpen (handle_table_transfer o source now orders s)
unfolding handle_table_transfer
handle_table_transfer-OneOpen o source now orders s one =
    add_order-OneOpen o now orders (leave_table o source orders s)
      (leave_table-OneOpen o source orders s one)

handle_ready_flag-OneOpen :
    (o : Order) (orders : List Order) (s : TableState)
    → OneOpen s
    → OneOpen (handle_ready_flag o orders s)
unfolding handle_ready_flag
handle_ready_flag-OneOpen o orders s one =
    let flags : TableLog → TableLog → TableLog = λ l m. record m {
      order_ready = ltb 0 (length (filter (λ x. is_status_done x.status) (served l orders)));
      item_ready = ltb 0 (length (filter (λ x. has_done_item x.items) (served l orders)));
    } in
    optional-OneOpen (find_log (current_log_of (find_table o.table_id s.tables)) s.logs) s
      (λ l. save_table_log l.id (flags l) s) one
      (λ l. save-OneOpen (is_log l.id) (flags l) s (λ i m h. h) one)

start_table-OneOpen :
    (req : Request) (id : ℕ) (s : TableState) → OneOpen s → OneOpen (start_table req id s).1
unfolding start_table
start_table-OneOpen req id s one = elim (Option-cases (find (is_table id) s.tables)) [
  | inl e ↦ rw e one
  | inr (t, e) ↦
      let key = eq_of_== t.id id (find_sound (is_table id) s.tables t e) in
      rw e (
        upsert-OneOpen (some id) (λ l. l) (started req t s.boot_time) s (λ i m h. h)
          (λ n. ap some key) one)
]

stop_table-OneOpen :
    (id now : ℕ) (orders : List Order) (s : TableState)
    → OneOpen s
    → OneOpen (stop_table id now orders s).1
unfolding stop_table
stop_table-OneOpen id now orders s one = elim (Option-cases (find (is_table id) s.tables)) [
  | inl e ↦ rw e one
  | inr (t, e) ↦ elim (Option-cases (find_log t.current_table_log s.logs)) [
    | inl e' ↦ rw (e, e') one
    | inr (l, e') ↦ elim (Bool-cases (ltb 0 (length (filter (is_pending l) orders)))) [
      | inl waits ↦ rw (e, e', waits) one
      | inr ends ↦
          rw (e, e', ends)
            (save-OneOpen (is_log l.id) (λ m. record m { closing_time = some now }) s
              (closed_stays now) one)
    ]
  ]
]
  where
    closed_stays : (t : ℕ) → Harmless (λ m. record m { closing_time = some t })
    closed_stays t i m h = ground arith

update_log-OneOpen :
    (id : ℕ) (dto : TableLogDto) (s : TableState) → OneOpen s → OneOpen (update_log id dto s).1
unfolding update_log
update_log-OneOpen id dto s one =
    elim (Option-cases (find_log (current_log_of (find (is_table id) s.tables)) s.logs)) [
      | inl e ↦ rw e one
      | inr (l, e) ↦ rw e (save-OneOpen (is_log l.id) (apply_dto dto) s (λ i m h. h) one)
    ]

-- A call of one of the operations, with the orders as they are stored then.
pub data TableCall : Type 0 where
  start_call : Request → ℕ → TableCall
  stop_call : ℕ → List Order → TableCall
  update_call : ℕ → TableLogDto → TableCall
  add_call : Order → List Order → TableCall
  transfer_call : Order → Option ℕ → List Order → TableCall
  ready_call : Order → List Order → TableCall
  payment_call : ℕ → List Order → TableCall

abbrev pub serve : TableCall → ℕ → TableState → TableState
serve (TableCall.start_call req id) now s = (start_table req id s).1
serve (TableCall.stop_call id os) now s = (stop_table id now os s).1
serve (TableCall.update_call id dto) now s = (update_log id dto s).1
serve (TableCall.add_call o os) now s = add_order_to_table_log_with_auto_start o now os s
serve (TableCall.transfer_call o source os) now s = handle_table_transfer o source now os s
serve (TableCall.ready_call o os) now s = handle_ready_flag o os s
serve (TableCall.payment_call id os) now s = handle_payment_needed os id s

abbrev pub serve_all : List (TableCall × ℕ) → TableState → TableState
serve_all [] s = s
serve_all ((c, now) ∷ cs) s = serve_all cs (serve c now s)

serve-OneOpen : (c : TableCall) (now : ℕ) (s : TableState) → OneOpen s → OneOpen (serve c now s)
serve-OneOpen (TableCall.start_call req id) now s h = start_table-OneOpen req id s h
serve-OneOpen (TableCall.stop_call id os) now s h = stop_table-OneOpen id now os s h
serve-OneOpen (TableCall.update_call id dto) now s h = update_log-OneOpen id dto s h
serve-OneOpen (TableCall.add_call o os) now s h = add_order-OneOpen o now os s h
serve-OneOpen (TableCall.transfer_call o source os) now s h =
    handle_table_transfer-OneOpen o source now os s h
serve-OneOpen (TableCall.ready_call o os) now s h = handle_ready_flag-OneOpen o os s h
serve-OneOpen (TableCall.payment_call id os) now s h = handle_payment_needed-OneOpen os id s h

-- Where of each table at most one log is open, this still holds after any sequence of calls, those
-- that fail included.
pub serve_all-OneOpen :
    (cs : List (TableCall × ℕ)) (s : TableState) → OneOpen s → OneOpen (serve_all cs s)
serve_all-OneOpen [] s h = h
serve_all-OneOpen ((c, now) ∷ cs) s h =
    serve_all-OneOpen cs (serve c now s) (serve-OneOpen c now s h)
