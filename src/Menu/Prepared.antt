-- ===== src/Menu/Prepared.antt =====
-- What an order that could be prepared (`prepareOrderItems` of src/order/order-helper.service.ts)
-- says of the menu.
use mathlib.Core.Path.{subst}
use gitrema_backend.Prelude.{
  ℕ, ◌==◌, ◌≡◌, refl, ap, ◌∙◌, inl, inr, Bool, true, false, not, ◌&&◌, Option, none, some, String,
  List, [], ◌∷◌, All, All-map, All-zip, ==-refl, eq_of_==, arith, map, filter, Bool-cases, is_some,
}
use gitrema_backend.Prelude.Action.{done, and_then-done, done-injective}
use gitrema_backend.Prelude.Collection.{find, update_first}
use gitrema_backend.Menu.State.{
  MenuItem, OrderItemDto, OrderHead, MenuStore, PreparedOption, PreparedItem, includes,
}
use gitrema_backend.Menu.Price.{RawLine, market_of, market_price, get_market_price}
use gitrema_backend.Menu.Stock.{is_on_sale}
use gitrema_backend.Menu.Prepare.{
  is_available, is_menu_item, find_item, check_item, prepare_additions, cached_category, visited,
  prepared_item, prepare_loop, prepare_order_items,
}
use gitrema_backend.Menu.Stocks.{
  StockView, stock_of, HasEnough, check_item-HasEnough, Stocks, find_item-Stocks, some-injective,
  visited-Stocks, stocked_id,
}

-- A prepared item answers to its line.
abbrev pub Answers : List OrderItemDto → List PreparedItem → Type 0
Answers [] [] = Unit
Answers [] (p ∷ ps) = ⊥
Answers (d ∷ ds) [] = ⊥
Answers (d ∷ ds) (p ∷ ps) =
    ((p.menu_item_id ≡ d.menu_item_id) × (p.quantity ≡ d.quantity)) × Answers ds ps

-- Each line of an order has enough of its menu item.
abbrev pub Covered : (ℕ → MenuItem → Bool) → ℕ → List MenuItem → OrderItemDto → Type 0
Covered query rid menu d =
    (v : StockView) × Stocks query d.menu_item_id menu v × HasEnough rid d.quantity v

prepared_item-answers :
    (now : ℕ) (s : MenuStore) (h : OrderHead) (d : OrderItemDto) (i : MenuItem)
    (os : List (PreparedOption × RawLine))
    → ((prepared_item now s h d i os).menu_item_id ≡ i.id)
      × ((prepared_item now s h d i os).quantity ≡ d.quantity)
unfolding prepared_item
prepared_item-answers now s h d i os = (refl, refl)

prepare_loop-Covered :
    (now : ℕ) (s : MenuStore) (h : OrderHead) (ds : List OrderItemDto) (menu : List MenuItem)
    (ps : List PreparedItem)
    → prepare_loop now s h ds menu ≡ done ps
    → Answers ds ps × All (Covered is_menu_item h.restaurant_id menu) ds
unfolding prepare_loop
prepare_loop-Covered now s h [] menu [] e = (tt, tt)
prepare_loop-Covered now s h [] menu (p ∷ ps) e = absurd (ground arith)
prepare_loop-Covered now s h (d ∷ ds) menu ps e =
    let (i, finds, e₁) = and_then-done (find_item d menu) _ ps e in
    let (u, checked, e₂) = and_then-done (check_item h.restaurant_id d.quantity i) _ ps e₁ in
    let (os, added, e₃) =
      and_then-done (prepare_additions h d.quantity s.cached_additions d.additions) _ ps e₂ in
    let c = cached_category s.cached_categories i.category_key in
    let menu' = update_first (is_menu_item d.menu_item_id) (visited c i) menu in
    let (rest, loops, e₄) = and_then-done (prepare_loop now s h ds menu') _ ps e₃ in
    let (answers, covered) = prepare_loop-Covered now s h ds menu' rest loops in
    let stocked = find_item-Stocks d menu i finds in
    let (mid, quantity_) = prepared_item-answers now s h d i os in
    (
      subst (Answers (d ∷ ds)) (done-injective e₄)
          ((mid ∙ stocked_id d.menu_item_id menu (stock_of i) stocked, quantity_), answers),
      (
        (stock_of i, stocked, check_item-HasEnough h.restaurant_id d.quantity i u checked),
        All-map
            (λ x covered_. (
              covered_.0,
              visited-Stocks d.menu_item_id x.menu_item_id c i menu covered_.0 stocked covered_.1,
              covered_.2,
            ))
            ds covered,
      ),
    )

-- The prices of a market leave the stock.
market-Stocks :
    (m : Option String) (id : ℕ) (xs ys : List MenuItem) (v : StockView)
    → get_market_price m xs ≡ done ys
    → Stocks is_menu_item id ys v
    → Stocks is_menu_item id xs v
unfolding get_market_price
market-Stocks m id [] ys v e (j, found, same) =
    absurd (nothing (ap (find (is_menu_item id)) (done-injective e) ∙ found))
  where
    nothing : none ≡ some j → ⊥
    nothing e' = ground arith
market-Stocks m id (x ∷ xs) ys v e (j, found, same) =
    let (p, _, e₁) = and_then-done (market_price m x.prices_for_markets x.price) _ ys e in
    let (rest, more, e₂) = and_then-done (get_market_price m xs) _ ys e₁ in
    let found' = ap (find (is_menu_item id)) (done-injective e₂) ∙ found in
    elim (Bool-cases (x.id == id)) [
      | inl here_ ↦ (x, rw here_ refl, ap stock_of (some-injective (rw here_ at found')) ∙ same)
      | inr later ↦
          let (i, i_found, i_same) =
            market-Stocks m id xs rest v more (j, rw later at found', same) in
          (i, rw later i_found, i_same)
    ]

on_sale-available :
    (k inc a d : Bool)
    → (k && a && not d) ≡ true
    → inc ≡ true
    → (k ≡ true) × ((inc && a && not d) ≡ true)
on_sale-available k inc a d h i = ground arith

not_on_sale :
    (k inc a d : Bool) → (k && a && not d) ≡ false → (inc && a && not d) ≡ true → k ≡ false
not_on_sale k inc a d h i = ground arith

-- What the query for the items of the order finds under an identifier of it, the query of
-- `manageInventory` finds as well.
available-Stocks :
    (ids : List ℕ) (id : ℕ) (xs : List MenuItem) (v : StockView)
    → includes ids id ≡ true
    → Stocks is_menu_item id (filter (is_available ids) xs) v
    → Stocks is_on_sale id xs v
available-Stocks ids id [] v h (j, found, same) = absurd (nothing found)
  where
    nothing : none ≡ some j → ⊥
    nothing e' = ground arith
available-Stocks ids id (x ∷ xs) v h (j, found, same) = elim (Bool-cases (is_on_sale id x)) [
  | inl on_sale ↦
      let key =
        eq_of_== x.id id
          (on_sale-available (x.id == id) true x.active (is_some x.deleted_at) on_sale refl).0 in
      let inc = ap (includes ids) key ∙ h in
      let (mine, available) =
        on_sale-available (x.id == id) (includes ids x.id) x.active (is_some x.deleted_at) on_sale
          inc in
      (x, rw on_sale refl, ap stock_of (some-injective (rw (available, mine) at found)) ∙ same)
  | inr not_ ↦ elim (Bool-cases (is_available ids x)) [
    | inl available ↦
        let other =
          not_on_sale (x.id == id) (includes ids x.id) x.active (is_some x.deleted_at) not_
            available in
        let (i, i_found, i_same) =
          available-Stocks ids id xs v h (j, rw (available, other) at found, same) in
        (i, rw not_ i_found, i_same)
    | inr out ↦
        let (i, i_found, i_same) = available-Stocks ids id xs v h (j, rw out at found, same) in
        (i, rw not_ i_found, i_same)
  ]
]

includes_own :
    (ds : List OrderItemDto)
    → All (λ x. includes (map (λ d. d.menu_item_id) ds) x.menu_item_id ≡ true) ds
includes_own [] = tt
includes_own (d ∷ ds) = (rw (==-refl d.menu_item_id) refl, All-map later ds (includes_own ds))
  where
    later :
        (x : OrderItemDto)
        → includes (map (λ y. y.menu_item_id) ds) x.menu_item_id ≡ true
        → includes (map (λ y. y.menu_item_id) (d ∷ ds)) x.menu_item_id ≡ true
    later x h = elim (Bool-cases (d.menu_item_id == x.menu_item_id)) [
      | inl same ↦ rw same refl
      | inr other ↦ rw other h
    ]

-- Where the items of an order can be prepared, there is one prepared item for each line, in the
-- order of the lines and with its menu item and quantity; and each menu item is active and not
-- deleted, is not sold out, and, where its quantity is managed, the restaurant has at least the
-- quantity of the line.
pub prepare_order_items-Covered :
    (now : ℕ) (s : MenuStore) (h : OrderHead) (ds : List OrderItemDto) (ps : List PreparedItem)
    → prepare_order_items now s h ds ≡ done ps
    → Answers ds ps × All (Covered is_on_sale h.restaurant_id s.menu_items) ds
unfolding prepare_order_items
prepare_order_items-Covered now s h ds ps e =
    let ids = map (λ d. d.menu_item_id) ds in
    let m = market_of h.source h.market_place_type in
    let chosen = filter (is_available ids) s.menu_items in
    let (menu, priced, e₁) = and_then-done (get_market_price m chosen) _ ps e in
    let (answers, covered) = prepare_loop-Covered now s h ds menu ps e₁ in
    (
      answers,
      All-zip
          (λ d inc line. (
            line.0,
            available-Stocks ids d.menu_item_id s.menu_items line.0 inc
                (market-Stocks m d.menu_item_id chosen menu line.0 priced line.1),
            line.2,
          ))
          ds (includes_own ds) covered,
    )
