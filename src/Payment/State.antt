-- ===== src/Payment/State.antt =====
-- The collections that a payment touches, and the body of a payment request.
use gitrema_backend.Prelude.{ℕ, Bool, Option, List}
use gitrema_backend.Prelude.Int.{ℤ}
use gitrema_backend.Prelude.Action.{Action}
use gitrema_backend.Order.Status.{OrderStatus, OrderPaymentStatus, PaymentMethod, PaymentStatus}
use gitrema_backend.Order.State.{Order}
use gitrema_backend.Cashier.{CashierState, CashierAction}
use gitrema_backend.Cashier.Dashboard.{DeferredTransaction}
use gitrema_backend.Table.{TableState}

-- src/transaction/schemas/transactions.schema.ts, without the details of the gateways.
pub record Transaction : Type 0 where
  pub id : ℕ
  pub supplier_id : ℕ
  pub order_id : ℕ
  pub cashier_id : Option ℕ
  pub amount : ℤ
  pub status : PaymentStatus
  pub payment_method : Option PaymentMethod
  pub is_refund : Bool
  pub added_by : Option ℕ

-- Calls of services that are not modelled, in the order in which they are made.
pub data Call : Type 0 where
  -- `orderHelperService.storeOrderStateActivity`, with `Refunded` or `PaymentReceived`
  store_activity : ℕ → Bool → Call
  -- `invoiceService.create`
  create_invoice : ℕ → Call
  -- `orderNotificationService.triggerOrderNotification(OrderPaid)`
  notify_order_paid : ℕ → Call
  -- `profitDetailService.updatePaymentStatus`
  update_profit : ℕ → OrderPaymentStatus → Call
  -- `orderHelperService.postOrderUpdate`, with the new status if there is one
  post_order_update : ℕ → Option OrderStatus → Call
  -- the payment gateway is asked for a token, and the terminal is told to start
  request_payment_token launch_pos : ℕ → Call

-- `transactions` and `deferred` are newest first.
pub record Db : Type 0 where
  pub orders : List Order
  pub transactions : List Transaction
  pub deferred : List DeferredTransaction
  pub next_id : ℕ
  pub cashier : CashierState
  pub table : TableState
  pub calls : List Call

abbrev pub DbAction : Type 0 → Type 0
DbAction = Action Db

-- A method of the cashier services, on the collections that it shares.
abbrev pub on_cashier : {A : Type 0} → CashierAction A → DbAction A
on_cashier m db = let (r, c) = m db.cashier in (r, record db { cashier = c })

pub record PaymentInitiateDto : Type 0 where
  pub order_id : ℕ
  pub cashier_id : Option ℕ
  pub amount : Option ℤ
  pub payment_method : PaymentMethod
  pub transaction_id : Option ℕ

pub record RefundDto : Type 0 where
  pub order_id : ℕ
  pub cashier_id : Option ℕ
  pub amount : ℤ
