-- ===== src/Order/Status.antt =====
-- The enumerations of src/order/enum/en.enum.ts, src/payment/enum/en.enum.ts and
-- src/core/Constants/enum.ts that the modelled services use, and the lists that they query by.
use gitrema_backend.Prelude.{
  ℕ, ◌==◌, ◌≡◌, ◌≢◌, sym, ap, ◌∙◌, inl, inr, Bool, true, false, arith, if◌then◌else◌, eq_of_==,
  Bool-cases,
}

pub data OrderType : Type 0 where
  to_go pickup delivery dine_in : OrderType

pub data OrderStatus : Type 0 where
  new sent_to_kitchen started_preparing done_preparing on_table closed : OrderStatus
  cancelled cancelled_by_merge cancelled_wih_payment_failed reset : OrderStatus

pub data OrderPaymentStatus : Type 0 where
  pending not_paid paid over_paid refunded partially_refunded deferred : OrderPaymentStatus

pub data PreparationStatus : Type 0 where
  not_started started_preparing done_preparing on_table : PreparationStatus

pub data PaymentMethod : Type 0 where
  cash online card pos hunger_station jahez toyo : PaymentMethod

pub data PaymentStatus : Type 0 where
  pending failed success : PaymentStatus

-- The place of a status in the enumeration, by which statuses are compared.
abbrev pub place_of : OrderStatus → ℕ
place_of OrderStatus.new = 0
place_of OrderStatus.sent_to_kitchen = 1
place_of OrderStatus.started_preparing = 2
place_of OrderStatus.done_preparing = 3
place_of OrderStatus.on_table = 4
place_of OrderStatus.closed = 5
place_of OrderStatus.cancelled = 6
place_of OrderStatus.cancelled_by_merge = 7
place_of OrderStatus.cancelled_wih_payment_failed = 8
place_of OrderStatus.reset = 9

abbrev pub same_status : OrderStatus → OrderStatus → Bool
same_status a b = place_of a == place_of b

-- Orders that take no payment: `[Closed, Cancelled, CancelledByMerge, CancelledWihPaymentFailed]`.
abbrev pub is_ended : OrderStatus → Bool
is_ended OrderStatus.closed = true
is_ended OrderStatus.cancelled = true
is_ended OrderStatus.cancelled_by_merge = true
is_ended OrderStatus.cancelled_wih_payment_failed = true
is_ended _ = false

abbrev pub is_new : OrderStatus → Bool
is_new OrderStatus.new = true
is_new _ = false

-- The list of `activeOrders` in `prepareDashboardData`.
abbrev pub is_active : OrderStatus → Bool
is_active OrderStatus.new = true
is_active OrderStatus.sent_to_kitchen = true
is_active OrderStatus.started_preparing = true
is_active OrderStatus.done_preparing = true
is_active OrderStatus.on_table = true
is_active OrderStatus.closed = true
is_active _ = false

abbrev pub is_not_paid : OrderPaymentStatus → Bool
is_not_paid OrderPaymentStatus.not_paid = true
is_not_paid _ = false

abbrev pub is_success : PaymentStatus → Bool
is_success PaymentStatus.success = true
is_success _ = false

abbrev pub is_cash : PaymentMethod → Bool
is_cash PaymentMethod.cash = true
is_cash _ = false

abbrev pub is_online : PaymentMethod → Bool
is_online PaymentMethod.online = true
is_online _ = false

-- `Online` or `Card`
abbrev pub is_bank : PaymentMethod → Bool
is_bank PaymentMethod.online = true
is_bank PaymentMethod.card = true
is_bank _ = false

-- `[Cash, Card].includes(paymentMethod)`
abbrev pub is_immediate : PaymentMethod → Bool
is_immediate PaymentMethod.cash = true
is_immediate PaymentMethod.card = true
is_immediate _ = false

abbrev status_at : ℕ → OrderStatus
status_at n =
    if n == 0
    then OrderStatus.new
    else if n == 1
    then OrderStatus.sent_to_kitchen
    else if n == 2
    then OrderStatus.started_preparing
    else if n == 3
    then OrderStatus.done_preparing
    else if n == 4
    then OrderStatus.on_table
    else if n == 5
    then OrderStatus.closed
    else if n == 6
    then OrderStatus.cancelled
    else if n == 7
    then OrderStatus.cancelled_by_merge
    else if n == 8
    then OrderStatus.cancelled_wih_payment_failed
    else OrderStatus.reset

status_at-place_of : (a : OrderStatus) → status_at (place_of a) ≡ a
status_at-place_of a = ground arith

pub same_status-eq : (a b : OrderStatus) → same_status a b ≡ true → a ≡ b
same_status-eq a b e =
    sym (status_at-place_of a)
    ∙ ap status_at (eq_of_== (place_of a) (place_of b) e)
    ∙ status_at-place_of b

pub same_status-ne : (a b : OrderStatus) → a ≢ b → same_status a b ≡ false
same_status-ne a b n = elim (Bool-cases (same_status a b)) [
  | inl same ↦ absurd (n (same_status-eq a b same))
  | inr differs ↦ differs
]
