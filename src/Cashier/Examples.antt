-- ===== src/Cashier/Examples.antt =====
-- A cashier's shift with a sale, a refund and a pause, and what is proved of it.
use gitrema_backend.Prelude.{ℕ, ◌≡◌, ◌≤◌, ◌⊎◌, refl, true, false, none, some, List, [], ◌∷◌, All}
use gitrema_backend.Prelude.Int.{pos, ◌+ℤ◌, ◌-ℤ◌}
use gitrema_backend.Prelude.Action.{done}
use gitrema_backend.Order.Status.{PaymentMethod}
use gitrema_backend.Cashier.State.{
  CashierLog, Cashier, Request, CashierState, OpenCashierDto, CloseCashierDto,
}
use gitrema_backend.Cashier.Log.{pause_log, resume_log}
use gitrema_backend.Cashier.Shift.{find_current_log}
use gitrema_backend.Cashier.Resolve.{resolve_cashier_id, keep_only_one_default}
use gitrema_backend.Cashier.Defaults.{resolve_cashier_id-keep_only_one_default}
use gitrema_backend.Cashier.Consistent.{IsConsistent, open_id}
use gitrema_backend.Cashier.Reachable.{Call, serve_all, count_open, one_open_shift}
use gitrema_backend.Cashier.Pauses.{
  PausedOutcome, RunningOutcome, IsPaused, pauses_alternate, resume-pause,
}
use gitrema_backend.Cashier.Dashboard.{
  LogTransaction, prepare_dashboard_data, other_sales, balance-expected_cash,
}

abbrev till : Cashier
till = record {
  id = 1;
  supplier_id = 9;
  restaurant_id = 5;
  paused = false;
  default = true;
  active = true;
  current_log = none;
}

abbrev before_opening : CashierState
before_opening = record { cashiers = till ∷ []; logs = []; users = []; next_id = 10 }

abbrev clerk : Request
clerk = record { user_id = 3; supplier_id = 9; is_customer = false }

abbrev float_dto : OpenCashierDto
float_dto = record { cashier_id = some 1; opening_balance = pos 10_000; note = none; image = none }

abbrev count_dto : CloseCashierDto
count_dto = record {
  cashier_id = some 1;
  closing_balance = pos 12_000;
  note = none;
  image = none;
  override_reason = none;
}

before_opening-IsConsistent : IsConsistent before_opening
before_opening-IsConsistent = record { older_closed = tt; points_to_open = (refl, tt) }

abbrev a_day : List (Call × ℕ)
a_day =
    (Call.start_call clerk float_dto, 100)
    ∷ (Call.start_call clerk float_dto, 150)
    ∷ (Call.pause_call "lunch" 1, 200)
    ∷ (Call.resume_call 1, 300)
    ∷ (Call.balance_call 1 false (pos 2_000), 350)
    ∷ (Call.close_call clerk count_dto, 400)
    ∷ (Call.resolve_call clerk none true (some 5), 500)
    ∷ []

one_open_shift_example :
    let s = serve_all a_day before_opening in
    ((cid : ℕ) → count_open cid s.logs ≤ 1)
    × All (λ c. c.current_log ≡ open_id (find_current_log c.id s.logs)) s.cashiers
one_open_shift_example = one_open_shift a_day before_opening before_opening-IsConsistent

-- The shift, opened by the clerk with 100.00.
abbrev shift : CashierLog
shift = record {
  id = 10;
  supplier_id = 9;
  cashier_id = 1;
  user_id = some 3;
  started_at = 100;
  closed_at = none;
  opening_balance = pos 10_000;
  current_balance = pos 11_500;
  closing_balance = none;
  difference = none;
  override_reason = none;
  transactions = [];
  images = [];
  notes = [];
  paused_logs = [];
  expenses = [];
}

pauses_alternate_example : PausedOutcome "lunch" 200 shift ⊎ RunningOutcome "lunch" 200 shift
pauses_alternate_example = pauses_alternate "lunch" 200 shift tt

abbrev lunch : CashierLog
lunch = record shift { paused_logs = record { reason = "lunch"; start = 200; end = none } ∷ [] }

shift-is_free : ¬ IsPaused shift
shift-is_free e = cc

abbrev takings : List LogTransaction
takings =
    record {
      amount = pos 2_000;
      is_refund = false;
      payment_method = PaymentMethod.card;
      order_tip = none;
    }
    ∷ record {
      amount = pos 500;
      is_refund = true;
      payment_method = PaymentMethod.cash;
      order_tip = none;
    }
    ∷ []

balance-expected_cash_example :
    let d = prepare_dashboard_data shift takings [] [] 300 in
    shift.current_balance ≡ d.expected_cash_at_close +ℤ other_sales takings +ℤ d.expense_amount
unfolding ◌+ℤ◌ ◌-ℤ◌
balance-expected_cash_example = balance-expected_cash shift takings [] [] 300 refl

abbrev old_default : Cashier
old_default = record till { id = 2 }

abbrev two_defaults : CashierState
two_defaults = record before_opening { cashiers = old_default ∷ till ∷ [] }

abbrev guest : Request
guest = record { user_id = 8; supplier_id = 9; is_customer = true }

resolve_cashier_id-keep_only_one_default_example :
    (resolve_cashier_id guest none false (some 5) 100 (keep_only_one_default till two_defaults)).0
    ≡ done 1
resolve_cashier_id-keep_only_one_default_example =
    resolve_cashier_id-keep_only_one_default guest till 100 two_defaults refl refl refl

resume-pause_example :
    resume_log 300 lunch
    ≡ done (record shift {
      paused_logs = record { reason = "lunch"; start = 200; end = some 300 } ∷ [];
    })
unfolding pause_log
resume-pause_example = resume-pause "lunch" 200 300 shift lunch shift-is_free refl
