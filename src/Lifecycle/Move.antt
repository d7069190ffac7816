-- ===== src/Lifecycle/Move.antt =====
-- `moveItems` of src/order/order.service.ts.
use gitrema_backend.Prelude.{
  ℕ, suc, ◌-◌, ◌==◌, ltb, if◌then◌else◌, Option, none, some, List, [], ◌∷◌, ◌++◌, ◌+◌, length,
}
use gitrema_backend.Prelude.Int.{pos}
use gitrema_backend.Prelude.Action.{
  Outcome, done, failed, and_then, record_not_found, order_closed, not_enough_quantity,
  item_not_found, not_enough_items, type_error, pure, gets, or_throw, throw_if, modify, ◌>>=◌, ◌>>◌,
}
use gitrema_backend.Lifecycle.State.{
  OrderItem, OrderDoc, post_order_create, LifeAction, Env, find_order, numbered, write_order,
  log_calls,
}
use gitrema_backend.Lifecycle.Update.{is_closed, prepare_order}
use gitrema_backend.Lifecycle.Cook.{same_id}

-- `quantity` is 0 where the body has none.
pub record MoveItemDto : Type 0 where
  pub item_id : ℕ
  pub quantity : ℕ

pub record MoveOrderItemDto : Type 0 where
  pub source_order_id : ℕ
  pub target_order_id : Option ℕ
  pub items : List MoveItemDto

abbrev pub with_quantity : ℕ → OrderItem → OrderItem
with_quantity q i = record i { quantity = q }

-- `{ ...itemObj.toObject(), quantity }`, without the `_id`.
abbrev pub moved : ℕ → OrderItem → OrderItem
moved q i = record i { id = none; quantity = q }

-- What is left of an item, if anything is.
abbrev pub left_over : ℕ → OrderItem → List OrderItem → List OrderItem
left_over q i rest = if q == 0 then rest else with_quantity q i ∷ rest

abbrev pub split_item : ℕ → OrderItem → List OrderItem → Outcome (OrderItem × List OrderItem)
split_item q i rest =
    if ltb 0 q
    then if ltb i.quantity q
      then failed not_enough_quantity
      else done (moved q i, left_over (i.quantity - q) i rest)
    else done (moved i.quantity i, rest)

abbrev pub keep_before :
    OrderItem → Outcome (OrderItem × List OrderItem) → Outcome (OrderItem × List OrderItem)
keep_before i (done (m, rest)) = done (m, i ∷ rest)
keep_before i (failed e) = failed e

-- One round of the loop: the item with the identifier, and the items that are left.
unfoldable pub take_item : MoveItemDto → List OrderItem → Outcome (OrderItem × List OrderItem)
take_item d [] = failed item_not_found
take_item d (i ∷ is) =
    let later = take_item d is in
    if same_id d.item_id i.id then split_item d.quantity i is else keep_before i later

-- The loop over the items of the body: the items that move, and those that stay.
unfoldable pub take_items :
    List MoveItemDto → List OrderItem → Outcome (List OrderItem × List OrderItem)
unfolding take_item
take_items [] is = done ([], is)
take_items (d ∷ ds) is =
    and_then (take_item d is) (λ r. and_then (take_items ds r.1) (λ rs. done (r.0 ∷ rs.0, rs.1)))

abbrev pub require_items :
    List OrderItem × List OrderItem → Outcome (List OrderItem × List OrderItem)
require_items (ms, []) = failed not_enough_items
require_items (ms, r ∷ rs) = done (ms, r ∷ rs)

-- The order that the items move to where the body names none: a copy of the source, without a
-- table fee and without transactions, under the next number.
unfoldable pub split_off : ℕ → List OrderItem → OrderDoc → OrderDoc
split_off number ms o = record o {
  items = ms;
  transactions = [];
  table_fee = pos 0;
  order_number = number;
}

abbrev pub with_items : List OrderItem → OrderDoc → OrderDoc
with_items is o = record o { items = is }

-- `orderModel.create`
abbrev pub create_order : OrderDoc → LifeAction OrderDoc
create_order o s =
    let doc = numbered (suc s.next_id) (record o { id = s.next_id }) in
    (done doc, record s { orders = doc ∷ s.orders; next_id = suc s.next_id + length o.items })

-- Items are prepared, and the order is summed up, for one order or the other.
abbrev pub reprepared : Env → OrderDoc → LifeAction OrderDoc
reprepared env o s = (prepare_order env o, s)

abbrev pub store_new : OrderDoc → LifeAction OrderDoc
store_new priced = do
  target ← create_order priced
  modify (log_calls (post_order_create target.id ∷ []))
  pure target

abbrev pub store_target : OrderDoc → LifeAction OrderDoc
store_target priced = do
  doc ← gets (λ s. numbered s.next_id priced)
  modify (write_order priced)
  pure doc

unfoldable pub move_to_new : Env → ℕ → List OrderItem → OrderDoc → LifeAction OrderDoc
move_to_new env number ms source = do
  priced ← reprepared env (split_off number ms source)
  store_new priced

unfoldable pub move_to : Env → ℕ → List OrderItem → LifeAction OrderDoc
move_to env id ms = do
  target ← or_throw (← gets (find_order id)) type_error
  priced ← reprepared env (with_items (target.items ++ ms) target)
  store_target priced

abbrev pub move_target : Env → ℕ → Option ℕ → List OrderItem → OrderDoc → LifeAction OrderDoc
move_target env number none ms source = move_to_new env number ms source
move_target env number (some id) ms source = move_to env id ms

abbrev pub store_left : Env → OrderDoc → OrderDoc → LifeAction OrderDoc
store_left env target source = do
  left ← reprepared env source
  modify (write_order left)
  pure target

-- The rest of the method, from where the loop has split the items: the target is written, and
-- then the source.
abbrev pub move_split :
    Env → ℕ → Option ℕ → OrderDoc → List OrderItem × List OrderItem → LifeAction OrderDoc
move_split env number target_id source split = do
  target ← move_target env number target_id split.0 source
  store_left env target (with_items split.1 source)

abbrev pub split_of : MoveOrderItemDto → OrderDoc → Outcome (List OrderItem × List OrderItem)
split_of dto source = and_then (take_items dto.items source.items) require_items

-- `number` is what `generateOrderNumber` returns.
unfoldable pub move_items : Env → ℕ → MoveOrderItemDto → LifeAction OrderDoc
move_items env number dto = do
  source ← or_throw (← gets (find_order dto.source_order_id)) record_not_found
  throw_if (is_closed source.status) order_closed
  split ← (λ s. (split_of dto source, s))
  move_split env number dto.target_order_id source split
