-- ===== src/Lifecycle/MoveExamples.antt =====
-- `moveItems` and `groupOrders` of src/order/order.service.ts at concrete states.
use gitrema_backend.Prelude.{
  ℕ, ◌+◌, ◌≡◌, refl, Bool, true, false, Option, none, some, List, [], ◌∷◌, arith, All, ap, sym, inl,
  inr, Bool-cases, if◌then◌else◌, ◌==◌,
}
use gitrema_backend.Prelude.Int.{ℤ, pos, ◌+ℤ◌, ◌-ℤ◌, ratio}
use gitrema_backend.Prelude.Action.{
  Outcome, done, failed, sold_out, not_enough_quantity, not_enough_items, done-injective,
}
use gitrema_backend.Menu.{
  MenuItem, MenuStore, prepare_order_items, get_market_price, prepare_loop, find_item, check_item,
  prepare_additions, prepared_item, item_offer, raw_item, amounts_of, round_off,
}
use gitrema_backend.Lifecycle.Menu.{prepare_from, menu_env, move_items-keeps_menu}
use gitrema_backend.Lifecycle.Examples.{no_money, line, lunch, dinner, start_store, env}
use gitrema_backend.Pricing.{
  calculate_summery, summary_with, find_offer, first_by_priority, header_discount_of,
}
use gitrema_backend.Lifecycle.{
  OrderItem, OrderDoc, Store, Env, find_order, prepare_order, take_item, take_items, split_off,
  move_to_new, move_to, move_items, split_of, move_target, MoveOrderItemDto, cancel_merged,
  group_orders, check_group, group_of, with_items, includes, move_payments, transaction_ids,
}
use gitrema_backend.Lifecycle.Conserved.{quantity_of, failed-not_done}
use gitrema_backend.Lifecycle.Moved.{KeepsQuantities, IdsBelow}
use gitrema_backend.Lifecycle.Together.{Together, target_quantity}
use gitrema_backend.Lifecycle.Doubled.{move_items-doubles}
use gitrema_backend.Lifecycle.Grouped.{move_payments-All, cancel_merged_keeps}
use gitrema_backend.Lifecycle.Merged.{IsMerged, cancel_merged-All}

abbrev two_of_three : MoveOrderItemDto
two_of_three = record {
  source_order_id = 2;
  target_order_id = some 3;
  items = record { item_id = 11; quantity = 2 } ∷ record { item_id = 12; quantity = 0 } ∷ [];
}

start-IdsBelow : IdsBelow start_store
start-IdsBelow = (omega arith, (omega arith, (omega arith, tt)))

abbrev item_of : ℕ → ℤ → MenuItem
item_of id price = record {
  id = id;
  category_id = none;
  category_key = none;
  price = price;
  prices_for_markets = none;
  tax_enabled = true;
  sold_out = false;
  manage_quantity = false;
  quantities = [];
  preparation_time = 10;
  active = true;
  deleted_at = none;
}

abbrev menu : MenuStore
menu = record {
  menu_items = item_of 7 (pos 500) ∷ item_of 8 (pos 1500) ∷ [];
  offers = [];
  cached_additions = [];
  cached_categories = [];
}

abbrev returned : Outcome OrderDoc → OrderDoc
returned (done t) = t
returned (failed _) = dinner

abbrev moved_order : OrderDoc
unfolding move_items take_items take_item move_to prepare_order prepare_from prepare_order_items
    get_market_price prepare_loop find_item check_item prepare_additions prepared_item item_offer
    raw_item amounts_of round_off calculate_summery summary_with find_offer first_by_priority
    header_discount_of ◌+ℤ◌ ◌-ℤ◌ ratio
moved_order = returned (move_items (menu_env 600 [] menu) 4 two_of_three start_store).0

moved_dinner : (move_items (menu_env 600 [] menu) 4 two_of_three start_store).0 ≡ done moved_order
unfolding moved_order move_items take_items take_item move_to prepare_order prepare_from
    prepare_order_items get_market_price prepare_loop find_item check_item prepare_additions
    prepared_item item_offer raw_item amounts_of round_off calculate_summery summary_with find_offer
    first_by_priority header_discount_of ◌+ℤ◌ ◌-ℤ◌ ratio
moved_dinner = refl

-- Of three and two portions, one stays and four are with the other order.
move_items-keeps_menu_example :
    Together 7 2
      (quantity_of 7 lunch.items + target_quantity 7 (some 3) start_store)
      moved_order
      (move_items (menu_env 600 [] menu) 4 two_of_three start_store).1
move_items-keeps_menu_example =
    move_items-keeps_menu 600 [] menu 7 4 two_of_three lunch moved_order start_store start-IdsBelow
      refl refl moved_dinner

refused_moves :
    ((move_items env 4
        (record two_of_three { items = record { item_id = 11; quantity = 4 } ∷ [] })
        start_store).0
      ≡ failed not_enough_quantity)
    × ((move_items env 4
          (record two_of_three {
            items =
                record { item_id = 11; quantity = 0 } ∷ record { item_id = 12; quantity = 1 } ∷ [];
          })
          start_store).0
        ≡ failed not_enough_items)
unfolding move_items take_items take_item
refused_moves = (refl, refl)

-- Menu item 7 is sold out.
abbrev has_seven : List OrderItem → Bool
has_seven [] = false
has_seven (i ∷ is) = let rest = has_seven is in if i.menu_item_id == 7 then true else rest

abbrev sold_out_env : Env
sold_out_env = record env {
  prepare = λ o. if has_seven o.items then failed sold_out else done o.items;
}

sold_out-KeepsQuantities : KeepsQuantities sold_out_env 8
sold_out-KeepsQuantities o is e = elim (Bool-cases (has_seven o.items)) [
  | inl out ↦ absurd (failed-not_done (rw out at e))
  | inr in_ ↦ ap (quantity_of 8) (sym (done-injective (rw in_ at e)))
]

abbrev one_of_eight : MoveOrderItemDto
one_of_eight = record {
  source_order_id = 2;
  target_order_id = none;
  items = record { item_id = 12; quantity = 1 } ∷ [];
}

abbrev ms : List OrderItem
ms = record (line 12 8 1) { id = none } ∷ []

abbrev split_lunch : OrderDoc
split_lunch = record lunch {
  id = 40;
  order_number = 4;
  items = line 41 8 1 ∷ [];
  summary = record no_money {
    total_before_discount = pos 1500;
    total_with_tax = pos 1500;
    total_taxable_amount = pos 1304;
    total_tax = pos 196;
    remaining_amount_to_collect = pos 1500;
    tax_on_fee = record { numerator = pos 0; denominator = 100_000_000 };
    total_fee = record { numerator = pos 0; denominator = 100_000_000 };
  };
}

made_target : (move_target sold_out_env 4 none ms lunch start_store).0 ≡ done split_lunch
unfolding move_to_new split_off prepare_order calculate_summery summary_with find_offer
    first_by_priority header_discount_of ◌+ℤ◌ ◌-ℤ◌ ratio
made_target = refl

split_lunch_items : split_of one_of_eight lunch ≡ done (ms, line 11 7 3 ∷ [])
unfolding take_items take_item
split_lunch_items = refl

rest_sold_out : prepare_order sold_out_env (with_items (line 11 7 3 ∷ []) lunch) ≡ failed sold_out
unfolding prepare_order
rest_sold_out = refl

-- One portion becomes two.
move_items-doubles_example :
    ((move_items sold_out_env 4 one_of_eight start_store).0 ≡ failed sold_out)
    × Together 8 2
        (quantity_of 8 lunch.items + target_quantity 8 none start_store + quantity_of 8 ms)
        split_lunch
        (move_items sold_out_env 4 one_of_eight start_store).1
move_items-doubles_example =
    move_items-doubles sold_out_env 8 4 one_of_eight lunch split_lunch start_store ms
      (line 11 7 3 ∷ []) sold_out sold_out-KeepsQuantities start-IdsBelow refl refl refl
      split_lunch_items made_target rest_sold_out

move_payments-All_example :
    All
      (λ t. includes (2 ∷ 3 ∷ []) t.order_id ≡ false)
      (move_payments (transaction_ids (2 ∷ 3 ∷ []) start_store) 40 start_store).payments
move_payments-All_example = move_payments-All (2 ∷ 3 ∷ []) 40 start_store refl

-- The body names a closed order first, so only one of the two orders that are grouped is read.
cancel_merged_keeps_example :
    find_order 3 (cancel_merged env 40 (lunch ∷ dinner ∷ []) (1 ∷ 2 ∷ 3 ∷ []) start_store).1
    ≡ some dinner
cancel_merged_keeps_example =
    cancel_merged_keeps env 40 3 (lunch ∷ dinner ∷ []) (1 ∷ 2 ∷ 3 ∷ []) start_store refl

cancel_merged-All_example :
    All
      (IsMerged 40 (cancel_merged env 40 (lunch ∷ dinner ∷ []) (2 ∷ 3 ∷ []) start_store).1)
      (2 ∷ 3 ∷ [])
cancel_merged-All_example =
    cancel_merged-All env 40 (lunch ∷ dinner ∷ []) (2 ∷ 3 ∷ []) start_store refl (refl, (refl, tt))
      ((lunch, refl, refl), ((dinner, refl, refl), tt))

-- Two orders without a table are not grouped; two orders of one table are.
abbrev at_table : Option ℕ → Store
at_table table = record start_store {
  orders = record dinner { table_id = table } ∷ record lunch { table_id = table } ∷ [];
}

abbrev is_grouped_at : Option ℕ → Bool
unfolding group_orders
is_grouped_at table = elim (group_orders env 4 (2 ∷ 3 ∷ []) (at_table table)).0 [
  | done _ ↦ true
  | failed _ ↦ false
]

grouped_tables : (is_grouped_at none ≡ false) × (is_grouped_at (some 9) ≡ true)
unfolding is_grouped_at group_orders check_group group_of prepare_order
grouped_tables = (refl, refl)
