-- ===== src/Cashier/Log.antt =====
-- The operations of src/cashier/cashier-log.service.ts on the newest log of a cashier, and the
-- opening of a shift by another service.
use gitrema_backend.Prelude.{
  ℕ, ◌==◌, if◌then◌else◌, Bool, false, not, Option, none, some, List, [], ◌∷◌, ◌++◌, String,
  is_some, get_last?, filter,
}
use gitrema_backend.Prelude.Int.{ℤ, pos, neg, ◌+ℤ◌}
use gitrema_backend.Prelude.Action.{
  Outcome, done, failed, Failure, record_not_found, already_paused, nothing_to_resume, type_error,
  pure, gets, or_throw, modify, detached, ◌>>=◌, ◌>>◌,
}
use gitrema_backend.Cashier.State.{
  PausedLog, CashierLog, Cashier, Request, CashierAction, ExpenseDto,
}
use gitrema_backend.Cashier.Shift.{find_current_log, update_current_log, save_log, add_log}

-- The query `{ cashierId }`; with `sort: { _id: -1 }` it finds the newest log of the cashier.
-- A pause without an end runs.
abbrev pub is_running : Option PausedLog → Bool
is_running none = false
is_running (some p) = not (is_some p.end)

-- The branch of `pause` with a body.
unfoldable pub pause_log : String → ℕ → CashierLog → Outcome CashierLog
pause_log reason now l =
    if is_running (get_last? l.paused_logs)
    then failed already_paused
    else done (record l {
      paused_logs = l.paused_logs ++ (record { reason = reason; start = now; end = none } ∷ []);
    })

-- `lastItem.end = new Date()`, written to the last place of the array.
unfoldable pub end_last : ℕ → List PausedLog → List PausedLog
end_last now [] = []
end_last now (p ∷ []) = record p { end = some now } ∷ []
end_last now (p ∷ q ∷ ps) = p ∷ end_last now (q ∷ ps)

-- The branch of `pause` without a body, which resumes.
unfoldable pub resume_log : ℕ → CashierLog → Outcome CashierLog
unfolding end_last
resume_log now l =
    if is_running (get_last? l.paused_logs)
    then done (record l { paused_logs = end_last now l.paused_logs })
    else failed nothing_to_resume

-- Finds the newest log, changes it or throws, and saves it.
unfoldable pub change_log :
    Failure → (CashierLog → Outcome CashierLog) → ℕ → CashierAction CashierLog
change_log missing f cid = do
  l ← or_throw (← gets (λ s. find_current_log cid s.logs)) missing
  l' ← (λ s. (f l, s))
  modify (save_log cid (λ _. l'))
  pure l'

-- `pause` with a body, and without one.
unfoldable pub pause : String → ℕ → ℕ → CashierAction CashierLog
unfolding change_log pause_log
pause reason now = change_log record_not_found (pause_log reason now)

unfoldable pub resume : ℕ → ℕ → CashierAction CashierLog
unfolding change_log resume_log
resume now = change_log record_not_found (resume_log now)

abbrev pub push_transaction : ℕ → CashierLog → CashierLog
push_transaction tid l = record l { transactions = l.transactions ++ (tid ∷ []) }

-- `logTransactionAsync`: `$push: { transactions }`
unfoldable pub log_transaction_async : ℕ → ℕ → CashierAction CashierLog
unfolding change_log
log_transaction_async cid tid = change_log record_not_found (λ l. done (push_transaction tid l)) cid

-- What a transaction adds to the balance: `isRefund ? -1 * amount : amount`.
abbrev pub signed_amount : Bool → ℤ → ℤ
signed_amount is_refund amount = if is_refund then neg amount else amount

abbrev pub add_balance : Bool → ℤ → CashierLog → CashierLog
add_balance is_refund amount l = record l {
  current_balance = l.current_balance +ℤ signed_amount is_refund amount;
}

-- `storeCurrentBalance`: `$inc: { currentBalance }`
unfoldable pub store_current_balance : ℕ → Bool → ℤ → CashierAction CashierLog
unfolding change_log
store_current_balance cid is_refund amount =
    change_log record_not_found (λ l. done (add_balance is_refund amount l)) cid

-- `log.expenses.push({ ...dto, addedBy })`; `eid` is the identifier that the subdocument gets.
abbrev pub push_expense : Request → ExpenseDto → ℕ → CashierLog → CashierLog
push_expense req dto eid l = record l {
  expenses =
      l.expenses
      ++ (record {
        id = eid;
        description = dto.description;
        expense_number = dto.expense_number;
        attachment = dto.attachment;
        expense = dto.expense;
        added_by = some req.user_id;
      }
          ∷ []);
}

unfoldable pub store_expense : Request → ExpenseDto → ℕ → ℕ → CashierAction CashierLog
unfolding change_log
store_expense req dto eid = change_log type_error (λ l. done (push_expense req dto eid l))

abbrev pub drop_expense : ℕ → CashierLog → CashierLog
drop_expense eid l = record l { expenses = filter (λ e. not (e.id == eid)) l.expenses }

unfoldable pub remove_expense : ℕ → ℕ → CashierAction CashierLog
unfolding change_log
remove_expense eid = change_log type_error (λ l. done (drop_expense eid l))

-- The log that `autoStartCashier` creates; `req` is `null` for a customer.
unfoldable pub auto_opened : Option Request → Cashier → ℕ → ℕ → CashierLog
auto_opened req c id now = record {
  id = id;
  supplier_id = c.supplier_id;
  cashier_id = c.id;
  user_id = elim req [ none ↦ none | some r ↦ some r.user_id ];
  started_at = now;
  closed_at = none;
  opening_balance = pos 0;
  current_balance = pos 0;
  closing_balance = none;
  difference = none;
  override_reason = none;
  transactions = [];
  images = [];
  notes = [];
  paused_logs = [];
  expenses = [];
}

unfoldable pub auto_start_cashier : Option Request → Cashier → ℕ → CashierAction (Unit {0})
unfolding update_current_log auto_opened
auto_start_cashier req c now = do
  log ← gets (λ s. auto_opened req c s.next_id now)
  modify (add_log log)
  detached (update_current_log c.id (some log.id))
