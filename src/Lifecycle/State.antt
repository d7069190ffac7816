-- ===== src/Lifecycle/State.antt =====
-- The fields of an order (src/order/schemas/order.schema.ts) and of its items that its life
-- depends on, the bodies of the requests, and what the modelled methods are given.
use gitrema_backend.Prelude.{
  ℕ, suc, ◌+◌, ◌==◌, Bool, Option, none, some, List, [], ◌∷◌, ◌++◌, String, length, map,
}
use gitrema_backend.Prelude.Int.{ℤ}
use gitrema_backend.Prelude.Action.{Action, Outcome}
use gitrema_backend.Prelude.Collection.{find, update_first}
use gitrema_backend.Order.Status.{OrderType, OrderStatus, OrderPaymentStatus, PreparationStatus}
use gitrema_backend.Menu.{MenuAdditionDto, OptionDto, Source}
use gitrema_backend.Pricing.{ItemAmounts, Offer, FullSummary}

-- An item of an order. It has no `_id` before it is first written. Of its amounts, those that the
-- summary is made of are here; of its additions, the identifiers of the options.
pub record OrderItem : Type 0 where
  pub id : Option ℕ
  pub menu_item_id : ℕ
  pub quantity : ℕ
  pub amounts : ItemAmounts
  pub preparation_status : PreparationStatus
  pub kitchen_queue_id : Option ℕ
  pub additions : List MenuAdditionDto
  -- a price in the body of a request, which the schema does not have
  pub price : Option ℤ

pub record OrderDoc : Type 0 where
  pub id : ℕ
  pub order_number : ℕ
  pub supplier_id : ℕ
  pub restaurant_id : ℕ
  pub source : Source
  pub market_place_type : Option String
  pub kitchen_queue_id : Option ℕ
  pub table_id : Option ℕ
  pub customer_id : Option ℕ
  pub contact_number : Option String
  pub order_type : OrderType
  pub status : OrderStatus
  pub payment_status : OrderPaymentStatus
  -- `invoiceStatus == Invoiced`
  pub invoiced : Bool
  pub is_scheduled : Bool
  pub is_grouped : Bool
  pub group_id : Option ℕ
  pub coupon_code : Option String
  pub items : List OrderItem
  pub table_fee : ℤ
  pub tax_rate : ℕ
  pub fee_rate : ℕ
  pub tip : Option ℤ
  pub summary : FullSummary
  pub transactions : List ℕ
  pub sent_to_kitchen_time : Option ℕ
  pub order_ready_time : Option ℕ
  pub actual_start_time : Option ℕ

-- The fields of the body of an update that the code reads by name.
pub record UpdateOrderDto : Type 0 where
  pub status : Option OrderStatus
  pub order_item_ids : Option (List ℕ)
  pub items : Option (List OrderItem)
  pub coupon_code : Option String
  pub table_id : Option ℕ
  pub tip : Option ℤ
  pub group_id : Option ℕ

-- Calls of other services behind an update, in the order in which they are made.
pub data Call : Type 0 where
  -- `storeOrderStateActivity`
  store_sent_to_kitchen store_order_ready : ℕ → Option ℕ → Call
  -- `calculateOrderPreparationTiming` with the save behind it, and the three recalculations
  calculate_timing recalculate_after_sent recalculate_after_completed : ℕ → Call
  recalculate_after_update : ℕ → Call
  -- `generateKitchenReceipts(order, print)` and `notifyKitchenQueue`
  kitchen_receipts : ℕ → Bool → Call
  notify_kitchen_queue : ℕ → Call
  -- `handleReadyFlag` and `handleTableTransfer`, with the table that the order leaves
  ready_flag : ℕ → Call
  table_transfer : ℕ → Option ℕ → Call
  cancel_delivery : ℕ → Call
  -- `regenerateInvoice(order, cancelOnly)`
  regenerate_invoice : ℕ → Bool → Call
  notify_status : ℕ → OrderStatus → Call
  set_customer : ℕ → Call
  -- `postOrderCreate`
  post_order_create : ℕ → Call
  -- `emit(OrderPrepared)`, for the whole order or for an item
  emit_order_prepared emit_item_prepared : ℕ → Call

-- A payment that succeeded, as the grouping of orders sees it.
pub record Paid : Type 0 where
  pub transaction_id : ℕ
  pub order_id : ℕ

-- `orders` is newest first; so is `calls`.
pub record Store : Type 0 where
  pub orders : List OrderDoc
  pub payments : List Paid
  pub next_id : ℕ
  pub calls : List Call

abbrev pub LifeAction : Type 0 → Type 0
LifeAction = Action Store

-- The time of a call, the offers and the menu in the database: `prepare` is `prepareOrderItems`,
-- which reads the menu and writes nothing.
pub record Env : Type 0 where
  pub now : ℕ
  pub offers : List Offer
  pub prepare : OrderDoc → Outcome (List OrderItem)

abbrev pub has_id : ℕ → OrderDoc → Bool
has_id id o = o.id == id

abbrev pub find_order : ℕ → Store → Option OrderDoc
find_order id s = find (has_id id) s.orders

abbrev pub without_price : OptionDto → OptionDto
without_price o = record o { price = none }

-- What is stored of an addition: its options without a price, an empty list for none.
abbrev pub stored_addition : MenuAdditionDto → MenuAdditionDto
stored_addition a = record a {
  options = elim a.options [ none ↦ some [] | some os ↦ some (map without_price os) ];
}

-- Mongoose gives an `_id` to each item that has none, and drops what the schema does not have.
abbrev pub with_id : ℕ → OrderItem → OrderItem
with_id id i = record i {
  id = elim i.id [ none ↦ some id | some x ↦ some x ];
  additions = map stored_addition i.additions;
  price = none;
}

abbrev pub number_items : ℕ → List OrderItem → List OrderItem
number_items id [] = []
number_items id (i ∷ is) = with_id id i ∷ number_items (suc id) is

-- The document that is written: its items have identifiers.
abbrev pub numbered : ℕ → OrderDoc → OrderDoc
numbered id o = record o { items = number_items id o.items }

-- `findByIdAndUpdate(orderId, orderData)` and `save`.
abbrev pub write_order : OrderDoc → Store → Store
write_order o s = record s {
  orders = update_first (has_id o.id) (λ _. numbered s.next_id o) s.orders;
  next_id = s.next_id + length o.items;
}

abbrev pub log_calls : List Call → Store → Store
log_calls cs s = record s { calls = cs ++ s.calls }
