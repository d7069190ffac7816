-- ===== src/Cashier/Shift.antt =====
-- The opening and closing of a shift in src/cashier/cashier-log.service.ts, for a cashier that is
-- known. `start` and `close` first find the cashier (module Resolve).
use gitrema_backend.Prelude.{
  ℕ, suc, ◌==◌, if◌then◌else◌, Bool, false, not, ◌&&◌, Option, none, some, List, [], ◌∷◌, ◌++◌,
  String, is_some, is_text,
}
use gitrema_backend.Prelude.Int.{◌-ℤ◌, eqb_ℤ}
use gitrema_backend.Prelude.Action.{
  Outcome, done, failed, record_not_found, previous_open_instance, no_open_instance,
  no_balance_match, type_error, pure, gets, or_throw, throw_if, modify, detached, ◌>>=◌, ◌>>◌,
}
use gitrema_backend.Prelude.Collection.{find, update_first, update_all}
use gitrema_backend.Cashier.State.{
  CashierLog, Cashier, Request, CashierState, CashierAction, OpenCashierDto, CloseCashierDto,
}

abbrev pub of_cashier : ℕ → CashierLog → Bool
of_cashier cid l = l.cashier_id == cid

abbrev pub find_current_log : ℕ → List CashierLog → Option CashierLog
find_current_log cid = find (of_cashier cid)

abbrev pub has_id : ℕ → Cashier → Bool
has_id cid c = c.id == cid

abbrev pub set_current_log : Option ℕ → Cashier → Cashier
set_current_log l c = record c { current_log = l }

-- `CashierService.update(cashierId, { currentLog })`. An identifier is unique, so at most one
-- cashier is changed.
unfoldable pub update_current_log : ℕ → Option ℕ → CashierAction (Unit {0})
update_current_log cid l = do
  c ← or_throw (← gets (λ s. find (has_id cid) s.cashiers)) record_not_found
  modify (λ s. record s { cashiers = update_all (has_id cid) (set_current_log l) s.cashiers })

-- Writes the newest log of the cashier back after a change.
abbrev pub save_log : ℕ → (CashierLog → CashierLog) → CashierState → CashierState
save_log cid f s = record s { logs = update_first (of_cashier cid) f s.logs }

abbrev pub push_some : Option String → List String → List String
push_some none xs = xs
push_some (some x) xs = if is_text (some x) then xs ++ (x ∷ []) else xs

-- The log that `start` creates.
unfoldable pub opened : Request → OpenCashierDto → ℕ → ℕ → ℕ → CashierLog
opened req dto cid id now = record {
  id = id;
  supplier_id = req.supplier_id;
  cashier_id = cid;
  user_id = some req.user_id;
  started_at = now;
  closed_at = none;
  opening_balance = dto.opening_balance;
  current_balance = dto.opening_balance;
  closing_balance = none;
  difference = none;
  override_reason = none;
  transactions = [];
  images = push_some dto.image [];
  notes = push_some dto.note [];
  paused_logs = [];
  expenses = [];
}

abbrev pub add_log : CashierLog → CashierState → CashierState
add_log l s = record s { logs = l ∷ s.logs; next_id = suc s.next_id }

-- `cashierLog && !cashierLog.closedAt`
abbrev pub is_open : Option CashierLog → Bool
is_open none = false
is_open (some l) = not (is_some l.closed_at)

-- `start`, from the search for the last log on.
unfoldable pub start_shift : Request → OpenCashierDto → ℕ → ℕ → CashierAction CashierLog
unfolding update_current_log opened
start_shift req dto now cid = do
  last ← gets (λ s. find_current_log cid s.logs)
  throw_if (is_open last) previous_open_instance
  log ← gets (λ s. opened req dto cid s.next_id now)
  modify (add_log log)
  detached (update_current_log cid (some log.id))
  pure log

-- `cashierLog.set({ ...dto, closedAt, difference })` behind the pushes of image and note.
unfoldable pub closed : CloseCashierDto → ℕ → CashierLog → CashierLog
closed dto now l = record l {
  closed_at = some now;
  closing_balance = some dto.closing_balance;
  difference = some (dto.closing_balance -ℤ l.current_balance);
  override_reason = elim dto.override_reason [ none ↦ l.override_reason | some r ↦ some r ];
  images = push_some dto.image l.images;
  notes = push_some dto.note l.notes;
}

-- The guards of `close`, in their order: a closed log, no log at all, a balance that differs.
unfoldable pub close_check : CloseCashierDto → Option CashierLog → Outcome CashierLog
close_check dto none = failed type_error
close_check dto (some l) =
    if is_some l.closed_at
    then failed no_open_instance
    else if not (is_text dto.override_reason) && not (eqb_ℤ l.current_balance dto.closing_balance)
    then failed no_balance_match
    else done l

-- `close`, from the search for the last log on.
unfoldable pub close_shift : CloseCashierDto → ℕ → ℕ → CashierAction CashierLog
unfolding update_current_log closed close_check
close_shift dto now cid = do
  last ← gets (λ s. find_current_log cid s.logs)
  l ← (λ s. (close_check dto last, s))
  modify (save_log cid (closed dto now))
  detached (update_current_log cid none)
  pure (closed dto now l)
