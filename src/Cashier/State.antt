-- ===== src/Cashier/State.antt =====
-- The documents of src/cashier/schemas, with the fields that the services read or write, and
-- the request bodies of src/cashier/dto. Amounts are in hundredths, times in milliseconds.
use gitrema_backend.Prelude.{ℕ, Bool, Option, List, String}
use gitrema_backend.Prelude.Int.{ℤ}
use gitrema_backend.Prelude.Action.{Action}

pub record PausedLog : Type 0 where
  pub reason : String
  pub start : ℕ
  pub end : Option ℕ

pub record Expense : Type 0 where
  pub id : ℕ
  pub description : String
  pub expense_number : Option String
  pub attachment : Option String
  pub expense : ℤ
  pub added_by : Option ℕ

pub record CashierLog : Type 0 where
  pub id : ℕ
  pub supplier_id : ℕ
  pub cashier_id : ℕ
  pub user_id : Option ℕ
  pub started_at : ℕ
  pub closed_at : Option ℕ
  pub opening_balance : ℤ
  pub current_balance : ℤ
  pub closing_balance : Option ℤ
  pub difference : Option ℤ
  pub override_reason : Option String
  pub transactions : List ℕ
  pub images : List String
  pub notes : List String
  pub paused_logs : List PausedLog
  pub expenses : List Expense

pub record Cashier : Type 0 where
  pub id : ℕ
  pub supplier_id : ℕ
  pub restaurant_id : ℕ
  pub paused : Bool
  pub default : Bool
  pub active : Bool
  pub current_log : Option ℕ

-- What `resolveCashierId` reads of a user.
pub record User : Type 0 where
  pub id : ℕ
  pub cashier : Option ℕ

-- The authenticated user, `req.user`.
pub record Request : Type 0 where
  pub user_id : ℕ
  pub supplier_id : ℕ
  pub is_customer : Bool

-- The collections. `logs` is newest first, and `next_id` is the identifier of the next
-- document that is created in it.
pub record CashierState : Type 0 where
  pub cashiers : List Cashier
  pub logs : List CashierLog
  pub users : List User
  pub next_id : ℕ

abbrev pub CashierAction : Type 0 → Type 0
CashierAction = Action CashierState

pub record OpenCashierDto : Type 0 where
  pub cashier_id : Option ℕ
  pub opening_balance : ℤ
  pub note : Option String
  pub image : Option String

-- `CloseCashierDto` and `OverrideCloseCashierDto`: the second has a reason.
pub record CloseCashierDto : Type 0 where
  pub cashier_id : Option ℕ
  pub closing_balance : ℤ
  pub note : Option String
  pub image : Option String
  pub override_reason : Option String

pub record ExpenseDto : Type 0 where
  pub description : String
  pub expense_number : Option String
  pub attachment : Option String
  pub expense : ℤ
