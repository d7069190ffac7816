-- ===== src/Lifecycle/Menu.antt =====
-- The items of an order prepared from the menu: `prepareOrderItems` of
-- src/order/order-helper.service.ts, as the methods of src/order/order.service.ts call it.
use gitrema_backend.Prelude.{
  ℕ, ◌+◌, ◌==◌, ◌≡◌, refl, sym, ap, ◌∙◌, some, false, List, [], ◌∷◌, map, if◌then◌else◌,
}
use gitrema_backend.Prelude.Action.{Outcome, done, and_then, and_then-done, done-injective}
use gitrema_backend.Menu.{OrderItemDto, OrderHead, MenuStore, PreparedItem, prepare_order_items}
use gitrema_backend.Menu.Prepared.{Answers, prepare_order_items-Covered}
use gitrema_backend.Pricing.{Offer}
use gitrema_backend.Lifecycle.State.{OrderItem, OrderDoc, Store, Env, find_order}
use gitrema_backend.Lifecycle.Cook.{same_id}
use gitrema_backend.Lifecycle.Move.{MoveOrderItemDto, move_items}
use gitrema_backend.Lifecycle.Conserved.{quantity_in, quantity_of}
use gitrema_backend.Lifecycle.Moved.{KeepsQuantities, IdsBelow}
use gitrema_backend.Lifecycle.Together.{Together, target_quantity, move_items-conserves}

abbrev pub head_of : OrderDoc → OrderHead
head_of o = record {
  restaurant_id = o.restaurant_id;
  source = o.source;
  market_place_type = o.market_place_type;
  tax_rate = o.tax_rate;
  coupon_code = o.coupon_code;
  kitchen_queue_id = o.kitchen_queue_id;
}

abbrev pub dto_of : OrderItem → OrderItemDto
dto_of i = record {
  menu_item_id = i.menu_item_id;
  additions = i.additions;
  quantity = i.quantity;
  price = i.price;
}

-- `preparedItems[i] = { ...items[i] }`, with what was prepared.
abbrev pub with_prepared : OrderItem → PreparedItem → OrderItem
with_prepared i p = record i {
  menu_item_id = p.menu_item_id;
  quantity = p.quantity;
  amounts = record {
    amount_before_discount = p.amounts.amount_before_discount;
    discount = p.amounts.discount;
    amount_after_discount = p.amounts.amount_after_discount;
  };
  kitchen_queue_id = p.kitchen_queue_id;
}

abbrev pub with_all_prepared : List OrderItem → List PreparedItem → List OrderItem
with_all_prepared [] ps = []
with_all_prepared (i ∷ is) [] = []
with_all_prepared (i ∷ is) (p ∷ ps) = with_prepared i p ∷ with_all_prepared is ps

unfoldable pub prepare_from : ℕ → MenuStore → OrderDoc → Outcome (List OrderItem)
prepare_from now menu o =
    and_then (prepare_order_items now menu (head_of o) (map dto_of o.items))
      (λ ps. done (with_all_prepared o.items ps))

-- What the methods of an order are given, from the menu and the offers.
abbrev pub menu_env : ℕ → List Offer → MenuStore → Env
menu_env now offers menu = record { now = now; offers = offers; prepare = prepare_from now menu }

Answers-quantity :
    (m : ℕ) (is : List OrderItem) (ps : List PreparedItem)
    → Answers (map dto_of is) ps
    → quantity_of m (with_all_prepared is ps) ≡ quantity_of m is
Answers-quantity m [] ps h = refl
Answers-quantity m (i ∷ is) [] h = elim h [ ]
Answers-quantity m (i ∷ is) (p ∷ ps) h =
    let (same, quantity_) = h.0 in
    ap (λ k. (if k == m then p.quantity else 0) + quantity_of m (with_all_prepared is ps)) same
    ∙ ap (λ q. (if i.menu_item_id == m then q else 0) + quantity_of m (with_all_prepared is ps))
        quantity_
    ∙ ap (λ q. quantity_in m i + q) (Answers-quantity m is ps h.1)

-- Preparing the items of an order from the menu keeps how much there is of each menu item, which
-- moving items relies on.
pub prepare_from-KeepsQuantities :
    (now : ℕ) (offers : List Offer) (menu : MenuStore) (m : ℕ)
    → KeepsQuantities (menu_env now offers menu) m
unfolding prepare_from
prepare_from-KeepsQuantities now offers menu m o is e =
    let (ps, prepared, e₁) =
      and_then-done (prepare_order_items now menu (head_of o) (map dto_of o.items)) _ is e in
    let (answers, _) =
      prepare_order_items-Covered now menu (head_of o) (map dto_of o.items) ps prepared in
    ap (quantity_of m) (sym (done-injective e₁)) ∙ Answers-quantity m o.items ps answers

-- Where `moveItems`, with the items prepared from the menu, returns an order, the source and this
-- order have together as much of each menu item as the source and the target had before, or the
-- source alone where the target is new. It is assumed that the identifiers of orders are below
-- the next one, and that the target is not the source.
pub move_items-keeps_menu :
    (now : ℕ) (offers : List Offer) (menu : MenuStore) (m number : ℕ) (dto : MoveOrderItemDto)
    (o t : OrderDoc) (s : Store)
    → IdsBelow s
    → same_id dto.source_order_id dto.target_order_id ≡ false
    → find_order dto.source_order_id s ≡ some o
    → (move_items (menu_env now offers menu) number dto s).0 ≡ done t
    → Together m dto.source_order_id
        (quantity_of m o.items + target_quantity m dto.target_order_id s)
        t
        (move_items (menu_env now offers menu) number dto s).1
move_items-keeps_menu now offers menu m number dto o t s =
    move_items-conserves (menu_env now offers menu) m number dto o t s
      (prepare_from-KeepsQuantities now offers menu m)
