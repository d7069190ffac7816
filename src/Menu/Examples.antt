-- ===== src/Menu/Examples.antt =====
-- A menu of two items: the methods of src/order/order-helper.service.ts at concrete orders.
use gitrema_backend.Prelude.{ℕ, ◌≡◌, refl, Bool, true, false, none, some, List, [], ◌∷◌, All, arith}
use gitrema_backend.Prelude.Int.{pos, negsuc, ◌+ℤ◌, ◌-ℤ◌, ratio}
use gitrema_backend.Prelude.Action.{
  Outcome, done, failed, sold_out, menu_item_not_available, type_error,
}
use gitrema_backend.Pricing.{
  ApplicationType, CalculationType, first_by_priority, header_discount_of,
}
use gitrema_backend.Menu.State.{
  MenuItem, MenuAddition, ItemOffer, OrderItemDto, Source, OrderHead, MenuStore, LineAmounts,
  PreparedItem,
}
use gitrema_backend.Menu.Price.{
  get_market_price, item_offer, raw_item, raw_option, amounts_of, round_off,
}
use gitrema_backend.Menu.Prepare.{
  find_item, check_item, prepare_options, prepare_choice, prepare_additions, prepared_item,
  prepare_loop, prepare_order_items,
}
use gitrema_backend.Menu.Stock.{take_stock, is_on_sale, manage_inventory}
use gitrema_backend.Menu.Prepared.{Answers, Covered, prepare_order_items-Covered}
use gitrema_backend.Menu.Stocked.{IsStocked, prepared-IsStocked}

abbrev burger : MenuItem
burger = record {
  id = 7;
  category_id = some 3;
  category_key = some 3;
  price = pos 2300;
  prices_for_markets = some (record { name = "App"; price = pos 2000 } ∷ []);
  tax_enabled = true;
  sold_out = false;
  manage_quantity = true;
  quantities = record { restaurant_id = 1; quantity = pos 5 } ∷ [];
  preparation_time = 10;
  active = true;
  deleted_at = none;
}

abbrev water : MenuItem
water = record {
  id = 8;
  category_id = some 4;
  category_key = some 4;
  price = pos 300;
  prices_for_markets = none;
  tax_enabled = false;
  sold_out = false;
  manage_quantity = false;
  quantities = [];
  preparation_time = 0;
  active = true;
  deleted_at = none;
}

-- A tenth off burgers.
abbrev tenth_off : ItemOffer
tenth_off = record {
  offer = record {
    supplier_id = 1;
    active = true;
    deleted_at = none;
    start = 0;
    end = 999_999_999_999;
    code = none;
    application_type = ApplicationType.line_item;
    discount_type = CalculationType.percentage;
    discount = pos 1000;
    max_discount = none;
    max_number_allowed = none;
    total_used = 0;
    priority = some 1;
  };
  menu_category_ids = [];
  menu_item_ids = 7 ∷ [];
}

abbrev cheese : MenuAddition
cheese = record {
  id = 20;
  tax_enabled = false;
  options =
      record { id = 21; price = pos 200; market_prices = none }
      ∷ record { id = 22; price = pos 400; market_prices = none }
      ∷ [];
}

-- The category of water is not in the cache.
abbrev menu : MenuStore
menu = record {
  menu_items = burger ∷ water ∷ [];
  offers = tenth_off ∷ [];
  cached_additions = cheese ∷ [];
  cached_categories = record { id = 3; kitchen_queue_id = some 50 } ∷ [];
}

abbrev at_desk : OrderHead
at_desk = record {
  restaurant_id = 1;
  source = Source.dine_in;
  market_place_type = none;
  tax_rate = 1500;
  coupon_code = none;
  kitchen_queue_id = some 60;
}

abbrev plain : ℕ → ℕ → OrderItemDto
plain id quantity = record { menu_item_id = id; additions = []; quantity = quantity; price = none }

abbrev two_burgers : OrderItemDto
two_burgers = record (plain 7 2) {
  additions =
      record {
        menu_addition_id = 20;
        options = some (record { option_id = 22; price = none } ∷ []);
      }
      ∷ [];
}

abbrev lines : List OrderItemDto
lines = two_burgers ∷ plain 8 1 ∷ []

-- 2 * (23.00 - 2.30) = 41.40, of which 36.00 are taxable, and two slices of cheese for 8.00.
abbrev prepared_burgers : PreparedItem
prepared_burgers = record {
  menu_item_id = 7;
  quantity = 2;
  item_amounts = record {
    unit_price_before_discount = pos 2300;
    amount_before_discount = pos 4600;
    unit_price_discount = pos 230;
    discount = pos 460;
    unit_price_after_discount = pos 2070;
    amount_after_discount = pos 4140;
    item_taxable_amount = pos 3600;
    tax = pos 540;
  };
  options =
      record {
        option_id = 22;
        amounts = record {
          unit_price_before_discount = pos 400;
          amount_before_discount = pos 800;
          unit_price_discount = pos 0;
          discount = pos 0;
          unit_price_after_discount = pos 400;
          amount_after_discount = pos 800;
          item_taxable_amount = pos 800;
          tax = pos 0;
        };
      }
      ∷ [];
  amounts = record {
    unit_price_before_discount = pos 2700;
    amount_before_discount = pos 5400;
    unit_price_discount = pos 230;
    discount = pos 460;
    unit_price_after_discount = pos 2470;
    amount_after_discount = pos 4940;
    item_taxable_amount = pos 4400;
    tax = pos 540;
  };
  preparation_time = 20;
  kitchen_queue_id = some 50;
}

abbrev water_amounts : LineAmounts
water_amounts = record {
  unit_price_before_discount = pos 300;
  amount_before_discount = pos 300;
  unit_price_discount = pos 0;
  discount = pos 0;
  unit_price_after_discount = pos 300;
  amount_after_discount = pos 300;
  item_taxable_amount = pos 300;
  tax = pos 0;
}

abbrev prepared_water : PreparedItem
prepared_water = record {
  menu_item_id = 8;
  quantity = 1;
  item_amounts = water_amounts;
  options = [];
  amounts = water_amounts;
  preparation_time = 0;
  kitchen_queue_id = some 60;
}

prepared_lines :
    prepare_order_items 0 menu at_desk lines ≡ done (prepared_burgers ∷ prepared_water ∷ [])
unfolding prepare_order_items prepare_loop get_market_price find_item check_item prepare_additions
    prepare_choice round_off prepare_options prepared_item item_offer raw_item raw_option amounts_of
    first_by_priority header_discount_of ◌+ℤ◌ ◌-ℤ◌ ratio
prepared_lines = refl

refused_lines :
    (prepare_order_items 0 menu at_desk (plain 7 6 ∷ []) ≡ failed sold_out)
    × (prepare_order_items 0 menu at_desk (plain 9 1 ∷ []) ≡ failed menu_item_not_available)
    × (prepare_order_items 0 menu (record at_desk { source = Source.website }) (plain 7 1 ∷ [])
        ≡ failed type_error)
unfolding prepare_order_items prepare_loop get_market_price find_item check_item
refused_lines = (refl, refl, refl)

prepare_order_items-Covered_example :
    Answers lines (prepared_burgers ∷ prepared_water ∷ [])
    × All (Covered is_on_sale 1 (burger ∷ water ∷ [])) lines
prepare_order_items-Covered_example =
    prepare_order_items-Covered 0 menu at_desk lines (prepared_burgers ∷ prepared_water ∷ [])
      prepared_lines

prepared-IsStocked_example :
    ((manage_inventory 1 (prepared_burgers ∷ prepared_water ∷ []) (burger ∷ water ∷ [])).0
      ≡ done tt)
    × All IsStocked
        (manage_inventory 1 (prepared_burgers ∷ prepared_water ∷ []) (burger ∷ water ∷ [])).1
prepared-IsStocked_example =
    prepared-IsStocked 0 menu at_desk lines (prepared_burgers ∷ prepared_water ∷ []) prepared_lines
      (refl, (refl, tt)) ((omega arith, tt), (tt, tt))

-- Two lines of three burgers can be prepared where there are five burgers; one is missing then.
abbrev is_prepared : Outcome (List PreparedItem) → Bool
is_prepared (done _) = true
is_prepared (failed _) = false

two_lines : is_prepared (prepare_order_items 0 menu at_desk (plain 7 3 ∷ plain 7 3 ∷ [])) ≡ true
unfolding prepare_order_items prepare_loop get_market_price find_item check_item prepare_additions
    prepare_choice
two_lines = refl

abbrev three_burgers : PreparedItem
three_burgers = record prepared_burgers { quantity = 3 }

below_zero : manage_inventory 1 (three_burgers ∷ three_burgers ∷ []) (burger ∷ []) ≡ (
  done tt,
  record burger { quantities = record { restaurant_id = 1; quantity = negsuc 0 } ∷ [] } ∷ [],
)
unfolding manage_inventory take_stock ◌-ℤ◌
below_zero = refl
