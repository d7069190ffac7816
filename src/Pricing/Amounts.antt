-- ===== src/Pricing/Amounts.antt =====
-- How the amounts of `calculateSummery` (src/order/calculation.service.ts) fit together.
use gitrema_backend.Prelude.{ℕ, ◌≡◌, ◌≢◌, refl, some, List, [], ◌∷◌, All}
use gitrema_backend.Prelude.Int.{ℤ, pos, ◌-ℤ◌, int_laws, ne→eqb_ℤ}
use gitrema_backend.Order.State.{Order}
use gitrema_backend.Payment.{with_total}
use gitrema_backend.Pricing.State.{ItemAmounts, Offer, OrderData}
use gitrema_backend.Pricing.Summary.{sum_of, summary_with, calculate_summery}

-- The amount of an item is what it costs less its discount.
abbrev pub IsDiscounted : ItemAmounts → Type 0
IsDiscounted i = i.amount_after_discount ≡ i.amount_before_discount -ℤ i.discount

sum-IsDiscounted :
    (is : List ItemAmounts)
    → All IsDiscounted is
    → sum_of (λ i. i.amount_after_discount) is
      ≡ sum_of (λ i. i.amount_before_discount) is -ℤ sum_of (λ i. i.discount) is
sum-IsDiscounted [] h = omega int_laws
sum-IsDiscounted (i ∷ is) h = rw (h.0, sum-IsDiscounted is h.1) (omega int_laws)

-- Where the amount of each item is its price less its discount, the total with tax is the total
-- before discounts less all discounts, the one on the whole order included.
pub calculate_summery_balance :
    (d : OrderData) (now : ℕ) (offers : List Offer)
    → All IsDiscounted d.items
    → let s = calculate_summery d now offers in
      s.total_with_tax ≡ s.total_before_discount -ℤ s.discount
unfolding calculate_summery summary_with
calculate_summery_balance d now offers h = rw (sum-IsDiscounted d.items h) (omega int_laws)

-- Where something was paid for an order, `calculateSummery` leaves the same amount to collect as
-- `postTransactionProcess` does with that total, for the same price and tip.
pub calculate_summery-with_total :
    (d : OrderData) (now : ℕ) (offers : List Offer) (o : Order) (paid : ℤ)
    → d.total_paid ≡ some paid
    → paid ≢ pos 0
    → o.tip ≡ d.tip
    → let s = calculate_summery d now offers in
      o.summary.total_with_tax ≡ s.total_with_tax
      → s.remaining_amount_to_collect ≡ (with_total paid o).summary.remaining_amount_to_collect
unfolding calculate_summery summary_with
calculate_summery-with_total d now offers o paid known some_paid tip same =
    rw (known, ne→eqb_ℤ paid (pos 0) some_paid, tip, same) refl
