-- ===== src/Kitchen/State.antt =====
-- What the scheduler reads and writes of an order. Times are in milliseconds, preparation times
-- in minutes. `actualStartTime` and `actualEndTime` are never written by it and are left out.
use gitrema_backend.Prelude.{
  ℕ, ◌+◌, ◌*◌, ◌==◌, leb, if◌then◌else◌, Bool, true, false, ◌||◌, Option, none, some, List, [], ◌∷◌,
}
use gitrema_backend.Order.Status.{OrderStatus}

pub record PreparationDetails : Type 0 where
  pub preparation_time : ℕ
  pub expected_start_time : ℕ
  pub expected_end_time : ℕ
  pub kitchen_sorting_number : ℕ

pub record KitchenOrder : Type 0 where
  pub id : ℕ
  pub kitchen_queue_id : Option ℕ
  pub status : OrderStatus
  pub is_scheduled : Bool
  -- `preparationTime` of each item
  pub items : List ℕ
  pub preparation_details : PreparationDetails

-- `moment.utc(t).add(minutes, 'm')`
abbrev pub add_minutes : ℕ → ℕ → ℕ
add_minutes t minutes = t + minutes * 60_000

-- `items.reduce((acc, oi) => acc + oi.preparationTime ?? 0, 0)`
abbrev pub total_time : List ℕ → ℕ
total_time [] = 0
total_time (t ∷ ts) = t + total_time ts

abbrev pub is_status_new : OrderStatus → Bool
is_status_new OrderStatus.new = true
is_status_new _ = false

abbrev pub is_status_sent : OrderStatus → Bool
is_status_sent OrderStatus.sent_to_kitchen = true
is_status_sent _ = false

-- `[SentToKitchen, New]`
abbrev pub is_status_waiting : OrderStatus → Bool
is_status_waiting s = is_status_new s || is_status_sent s

-- A query by `kitchenQueueId`; `null` finds the orders that have none.
abbrev pub same_queue : Option ℕ → Option ℕ → Bool
same_queue none none = true
same_queue none (some _) = false
same_queue (some _) none = false
same_queue (some a) (some b) = a == b

abbrev pub start_of : KitchenOrder → ℕ
start_of o = o.preparation_details.expected_start_time

abbrev pub end_of : KitchenOrder → ℕ
end_of o = o.preparation_details.expected_end_time

-- `sort: { 'preparationDetails.expectedStartTime': 1 }`
unfoldable pub insert_by_start : KitchenOrder → List KitchenOrder → List KitchenOrder
insert_by_start o [] = o ∷ []
insert_by_start o (p ∷ ps) =
    let rest = p ∷ insert_by_start o ps in
    if leb (start_of o) (start_of p) then o ∷ p ∷ ps else rest

unfoldable pub sort_by_start : List KitchenOrder → List KitchenOrder
unfolding insert_by_start
sort_by_start [] = []
sort_by_start (o ∷ os) = insert_by_start o (sort_by_start os)
