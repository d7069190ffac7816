-- ===== src/Menu/Prepare.antt =====
-- `prepareOrderItems` of src/order/order-helper.service.ts.
use gitrema_backend.Prelude.{
  ℕ, ◌*◌, ◌==◌, if◌then◌else◌, Bool, true, false, not, ◌&&◌, Option, none, some, List, [], ◌∷◌,
  ◌++◌, is_some, map, filter,
}
use gitrema_backend.Prelude.Int.{ℤ, pos, ltb_ℤ, eqb_ℤ}
use gitrema_backend.Prelude.Action.{
  Outcome, done, failed, and_then, type_error, menu_item_not_available, sold_out,
}
use gitrema_backend.Prelude.Collection.{find, update_first}
use gitrema_backend.Menu.State.{
  Quantity, MenuItem, AdditionOption, MenuAddition, MenuCategory, OptionDto, MenuAdditionDto,
  OrderItemDto, OrderHead, MenuStore, PreparedOption, PreparedItem, includes,
}
use gitrema_backend.Menu.Price.{
  market_of, market_price, get_market_price, item_offer, RawLine, raw_item, raw_option, add_option,
  amounts_of,
}

-- The query for the menu items of an order.
abbrev pub is_available : List ℕ → MenuItem → Bool
is_available ids i = includes ids i.id && i.active && not (is_some i.deleted_at)

abbrev pub is_menu_item : ℕ → MenuItem → Bool
is_menu_item id i = i.id == id

abbrev pub of_restaurant : ℕ → Quantity → Bool
of_restaurant rid q = q.restaurant_id == rid

-- A price of 0 is falsy.
abbrev pub has_price : Option ℤ → Bool
has_price none = false
has_price (some p) = not (eqb_ℤ p (pos 0))

abbrev pub price_or : Option ℤ → ℤ → ℤ
price_or none d = d
price_or (some p) d = p

-- The item, with the price of the body if there is one.
unfoldable pub find_item : OrderItemDto → List MenuItem → Outcome MenuItem
find_item d menu = elim (find (is_menu_item d.menu_item_id) menu) [
  | none ↦ if has_price d.price then failed type_error else failed menu_item_not_available
  | some i ↦ done (if has_price d.price then record i { price = price_or d.price i.price } else i)
]

abbrev pub is_short : ℕ → Option Quantity → Bool
is_short q none = true
is_short q (some a) = ltb_ℤ a.quantity (pos q)

-- The checks of an item.
unfoldable pub check_item : ℕ → ℕ → MenuItem → Outcome (Unit {0})
check_item rid q i =
    if i.sold_out
    then failed sold_out
    else if i.manage_quantity && is_short q (find (of_restaurant rid) i.quantities)
    then failed sold_out
    else done tt

-- `options.find((rao) => rao.optionId == o._id)`, and its price or that of the option.
abbrev pub option_price : List OptionDto → ℕ → ℤ → ℤ
option_price ds id p = elim (find (λ d. d.option_id == id) ds) [
  | none ↦ p
  | some d ↦ price_or d.price p
]

-- The options that were chosen, with what they add to the item.
unfoldable pub prepare_options :
    OrderHead
    → ℕ
    → Bool
    → List OptionDto
    → List AdditionOption
    → Outcome (List (PreparedOption × RawLine))
unfolding raw_option amounts_of
prepare_options h q taxed ds [] = done []
prepare_options h q taxed ds (o ∷ os) =
    and_then (market_price (market_of h.source h.market_place_type) o.market_prices o.price) (λ p.
      and_then (prepare_options h q taxed ds os) (λ rest.
        let line = raw_option taxed h.tax_rate q (option_price ds o.id p) in
        done ((record { option_id = o.id; amounts = amounts_of q line }, line) ∷ rest)))

abbrev pub is_chosen : List OptionDto → AdditionOption → Bool
is_chosen ds o = includes (map (λ d. d.option_id) ds) o.id

-- One addition of the body. Without options the cache does not matter.
unfoldable pub prepare_choice :
    OrderHead
    → ℕ
    → Option (List OptionDto)
    → Option MenuAddition
    → Outcome (List (PreparedOption × RawLine))
unfolding prepare_options
prepare_choice h q none a = done []
prepare_choice h q (some ds) none = failed type_error
prepare_choice h q (some ds) (some a) =
    prepare_options h q a.tax_enabled ds (filter (is_chosen ds) a.options)

unfoldable pub prepare_additions :
    OrderHead
    → ℕ
    → List MenuAddition
    → List MenuAdditionDto
    → Outcome (List (PreparedOption × RawLine))
unfolding prepare_choice
prepare_additions h q cached [] = done []
prepare_additions h q cached (d ∷ ds) =
    and_then (prepare_choice h q d.options (find (λ a. a.id == d.menu_addition_id) cached))
      (λ xs. and_then (prepare_additions h q cached ds) (λ ys. done (xs ++ ys)))

abbrev pub add_options : RawLine → List (PreparedOption × RawLine) → RawLine
add_options l [] = l
add_options l (o ∷ os) = add_options (add_option l o.1) os

-- `categoryId` is overwritten by what the cache has, and only then looked up in the database, so
-- that a category that is not cached is not found.
abbrev pub cached_category : List MenuCategory → Option ℕ → Option MenuCategory
cached_category cs none = none
cached_category cs (some id) = find (λ c. c.id == id) cs

abbrev pub queue_of : Option MenuCategory → Option ℕ → Option ℕ
queue_of none q = q
queue_of (some c) q = elim c.kitchen_queue_id [ none ↦ q | some k ↦ some k ]

-- The menu item behind its line: its price is overridden, and its category is an object or `null`.
abbrev pub visited : Option MenuCategory → MenuItem → MenuItem → MenuItem
visited c i _ = record i {
  category_id = elim c [ none ↦ none | some x ↦ some x.id ];
  category_key = none;
}

unfoldable pub prepared_item :
    ℕ
    → MenuStore
    → OrderHead
    → OrderItemDto
    → MenuItem
    → List (PreparedOption × RawLine)
    → PreparedItem
unfolding item_offer raw_item amounts_of
prepared_item now s h d i options =
    let line =
      raw_item (item_offer now h.coupon_code i s.offers) i.tax_enabled h.tax_rate d.quantity
        i.price in
    record {
      menu_item_id = i.id;
      quantity = d.quantity;
      item_amounts = amounts_of d.quantity line;
      options = map (λ o. o.0) options;
      amounts = amounts_of d.quantity (add_options line options);
      preparation_time = i.preparation_time * d.quantity;
      kitchen_queue_id =
          queue_of (cached_category s.cached_categories i.category_key) h.kitchen_queue_id;
    }

-- The loop over the items; what it writes to a menu item, the next line of the same item reads.
unfoldable pub prepare_loop :
    ℕ → MenuStore → OrderHead → List OrderItemDto → List MenuItem → Outcome (List PreparedItem)
unfolding find_item check_item prepare_additions prepared_item
prepare_loop now s h [] menu = done []
prepare_loop now s h (d ∷ ds) menu = and_then (find_item d menu) (λ i.
    and_then (check_item h.restaurant_id d.quantity i) (λ _.
      and_then (prepare_additions h d.quantity s.cached_additions d.additions) (λ options.
        let category = cached_category s.cached_categories i.category_key in
        and_then
          (prepare_loop now s h ds
            (update_first (is_menu_item d.menu_item_id) (visited category i) menu))
          (λ rest. done (prepared_item now s h d i options ∷ rest)))))

unfoldable pub prepare_order_items :
    ℕ → MenuStore → OrderHead → List OrderItemDto → Outcome (List PreparedItem)
unfolding get_market_price prepare_loop
prepare_order_items now s h ds =
    and_then
      (get_market_price (market_of h.source h.market_place_type)
        (filter (is_available (map (λ d. d.menu_item_id) ds)) s.menu_items))
      (prepare_loop now s h ds)
