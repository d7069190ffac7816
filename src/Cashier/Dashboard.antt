-- ===== src/Cashier/Dashboard.antt =====
-- `prepareDashboardData` of src/cashier/cashier-helper.service.ts: the figures of a shift.
-- `roundOffNumber` is not written: an amount is a whole number of hundredths, which it keeps.
use gitrema_backend.Prelude.{
  ℕ, ◌==◌, leb, ◌≡◌, ◌∙◌, inl, inr, Bool-cases, Bool, not, ◌&&◌, Option, none, some, List, [], ◌∷◌,
  map, filter,
}
use gitrema_backend.Prelude.Int.{ℤ, pos, ◌+ℤ◌, ◌-ℤ◌, int_laws}
use gitrema_backend.Order.Status.{OrderStatus, PaymentMethod, is_active, is_cash, is_bank}
use gitrema_backend.Cashier.State.{CashierLog}
use gitrema_backend.Cashier.Log.{signed_amount}

-- A populated transaction of the log, with the tip of its order.
pub record LogTransaction : Type 0 where
  pub amount : ℤ
  pub is_refund : Bool
  pub payment_method : PaymentMethod
  pub order_tip : Option ℤ

-- src/order/schemas/deferred-transaction.schema.ts
pub record DeferredTransaction : Type 0 where
  pub supplier_id : ℕ
  pub restaurant_id : ℕ
  pub order_id : ℕ
  pub cashier_id : ℕ
  pub amount : ℤ
  pub added_by : Option ℕ
  pub created_at : ℕ

-- An order of a table's current log.
pub record TableOrder : Type 0 where
  pub status : OrderStatus
  pub remaining_amount_to_collect : ℤ

-- `foldAmount`
abbrev pub sum : List ℤ → ℤ
sum [] = pos 0
sum (a ∷ as_) = a +ℤ sum as_

abbrev pub fold_amount : List LogTransaction → ℤ
fold_amount ts = sum (map (λ t. t.amount) ts)

-- The deferred transactions of the cashier between the start and the end of the shift, or now.
unfoldable pub deferred_of : CashierLog → ℕ → List DeferredTransaction → List DeferredTransaction
deferred_of l now = filter (λ d.
    (d.cashier_id == l.cashier_id)
    && leb l.started_at d.created_at
    && leb d.created_at (elim l.closed_at [ none ↦ now | some t ↦ t ]))

-- The amount that the active orders of a table have left.
unfoldable pub open_amount : List TableOrder → ℤ
open_amount os =
    sum (map (λ o. o.remaining_amount_to_collect) (filter (λ o. is_active o.status) os))

pub record Dashboard : Type 0 where
  pub opening_balance : ℤ
  pub total_refunds : ℤ
  pub total_sales : ℤ
  pub sales_paid_with_cash : ℤ
  pub sales_paid_with_card : ℤ
  pub expected_cash_at_close : ℤ
  pub deferred_amount : ℤ
  pub total_remianing_amount_to_collect : ℤ
  pub expense_amount : ℤ
  pub tip : ℤ

abbrev pub refunds_of : List LogTransaction → List LogTransaction
refunds_of = filter (λ t. t.is_refund)

abbrev pub sales_of : List LogTransaction → List LogTransaction
sales_of = filter (λ t. not t.is_refund)

abbrev pub expense_of : CashierLog → ℤ
expense_of l = sum (map (λ e. e.expense) l.expenses)

unfoldable pub prepare_dashboard_data :
    CashierLog
    → List LogTransaction
    → List DeferredTransaction
    → List (List TableOrder)
    → ℕ
    → Dashboard
unfolding deferred_of open_amount
prepare_dashboard_data l transactions all_deferred tables now =
    let deferred_amount = sum (map (λ d. d.amount) (deferred_of l now all_deferred)) in
    let sales = sales_of transactions in
    let refunds = fold_amount (refunds_of transactions) in
    let cash_sales = fold_amount (filter (λ t. is_cash t.payment_method) sales) in
    record {
      opening_balance = l.opening_balance;
      total_refunds = refunds;
      total_sales = fold_amount sales +ℤ deferred_amount;
      sales_paid_with_cash = cash_sales;
      sales_paid_with_card = fold_amount (filter (λ t. is_bank t.payment_method) sales);
      expected_cash_at_close = l.opening_balance +ℤ cash_sales -ℤ refunds -ℤ expense_of l;
      deferred_amount = deferred_amount;
      total_remianing_amount_to_collect = sum (map open_amount tables);
      expense_amount = expense_of l;
      tip = sum (map (λ t. elim t.order_tip [ none ↦ pos 0 | some x ↦ x ]) transactions);
    }

-- A transaction as `storeCurrentBalance` reads it.
abbrev pub as_stored : LogTransaction → Bool × ℤ
as_stored t = (t.is_refund, t.amount)

-- Sales less refunds, as `storeCurrentBalance` adds them: a refund or a sale, and its amount.
abbrev pub net : List (Bool × ℤ) → ℤ
net [] = pos 0
net ((is_refund, amount) ∷ ts) = signed_amount is_refund amount +ℤ net ts

net-split :
    (ts : List LogTransaction)
    → net (map as_stored ts) ≡ fold_amount (sales_of ts) -ℤ fold_amount (refunds_of ts)
net-split [] = omega int_laws
net-split (t ∷ ts) = elim (Bool-cases t.is_refund) [
  | inl refund ↦ rw refund (rw (net-split ts) (omega int_laws))
  | inr sale ↦ rw sale (rw (net-split ts) (omega int_laws))
]

cash-split :
    (ts : List LogTransaction)
    → fold_amount ts
      ≡ fold_amount (filter (λ t. is_cash t.payment_method) ts)
        +ℤ fold_amount (filter (λ t. not (is_cash t.payment_method)) ts)
cash-split [] = omega int_laws
cash-split (t ∷ ts) = elim (Bool-cases (is_cash t.payment_method)) [
  | inl cash ↦ rw cash (rw (cash-split ts) (omega int_laws))
  | inr other ↦ rw other (rw (cash-split ts) (omega int_laws))
]

-- The sales that were not paid in cash.
abbrev pub other_sales : List LogTransaction → ℤ
other_sales ts = fold_amount (filter (λ t. not (is_cash t.payment_method)) (sales_of ts))

-- Where the balance of a shift is its opening balance plus the net amount of its transactions
-- (what `storeCurrentBalance` keeps), it exceeds the cash that the dashboard expects at the close
-- by the sales that were not paid in cash and by the expenses.
pub balance-expected_cash :
    (l : CashierLog) (ts : List LogTransaction) (ds : List DeferredTransaction)
    (tables : List (List TableOrder)) (now : ℕ)
    → l.current_balance ≡ l.opening_balance +ℤ net (map as_stored ts)
    → let d = prepare_dashboard_data l ts ds tables now in
      l.current_balance ≡ d.expected_cash_at_close +ℤ other_sales ts +ℤ d.expense_amount
unfolding prepare_dashboard_data
balance-expected_cash l ts ds tables now kept =
    kept ∙ rw (net-split ts) (rw (cash-split (sales_of ts)) (omega int_laws))
