-- ===== src/Menu/Stocked.antt =====
-- The stock of the menu behind an order that could be prepared: `manageInventory` after
-- `prepareOrderItems` (src/order/order-helper.service.ts).
use mathlib.Core.Path.{subst}
use gitrema_backend.Prelude.{
  ℕ, ◌==◌, ◌≡◌, refl, sym, ◌∙◌, inl, inr, Bool, true, false, not, ◌&&◌, some, List, [], ◌∷◌, All,
  All-zip, arith, map, Bool-cases, is_some, if◌then◌else◌, eq_of_==,
}
use gitrema_backend.Prelude.Int.{ℤ, pos, ◌≤ℤ◌, ◌-ℤ◌, int_laws}
use gitrema_backend.Prelude.Action.{done}
use gitrema_backend.Prelude.Collection.{
  find, find_sound, find-All, update_first, update_first-All, find-update_first_other,
}
use gitrema_backend.Menu.State.{
  MenuItem, OrderItemDto, OrderHead, MenuStore, PreparedItem, includes,
}
use gitrema_backend.Menu.Prepare.{of_restaurant, prepare_order_items}
use gitrema_backend.Menu.Stock.{take_quantity, left_of, take_stock, is_on_sale, manage_inventory}
use gitrema_backend.Menu.Stocks.{StockView, stock_of, HasEnough, Stocks}
use gitrema_backend.Menu.Prepared.{Answers, Covered, prepare_order_items-Covered}

-- No quantity is below 0.
abbrev pub IsStocked : MenuItem → Type 0
IsStocked i = All (λ a. pos 0 ≤ℤ a.quantity) i.quantities

left_enough : (q : ℕ) (a : ℤ) → pos q ≤ℤ a → pos 0 ≤ℤ a -ℤ pos q
left_enough q a h = omega (arith, int_laws)

if_true : {A : Type 0} {b : Bool} {x : A} (y : A) → b ≡ true → (if b then x else y) ≡ x
if_true y h = rw h refl

-- Of an item that has enough, an item with stock is left.
take_stock-IsStocked :
    (rid q : ℕ) (i : MenuItem)
    → HasEnough rid q (stock_of i)
    → IsStocked i
    → (j : MenuItem) × (take_stock rid q i ≡ done j) × IsStocked j × (j.id ≡ i.id)
unfolding take_stock
take_stock-IsStocked rid q i (left, inl free) h = (i, rw free refl, h, refl)
take_stock-IsStocked rid q i (left, inr (a, found, enough)) h =
    elim (Bool-cases i.manage_quantity) [
      | inr free ↦ (i, rw free refl, h, refl)
      | inl managed ↦ (
        left_of rid q a i,
        if_true (done i) managed ∙ rw found refl,
        update_first-All (λ x. pos 0 ≤ℤ x.quantity) (of_restaurant rid) (take_quantity q)
            i.quantities a found (λ _. left_enough q a.quantity enough) h,
        refl,
      )
    ]

-- A line that can be served from the menu.
abbrev pub CanServe : ℕ → List MenuItem → PreparedItem → Type 0
CanServe rid menu p =
    (v : StockView) × Stocks is_on_sale p.menu_item_id menu v × HasEnough rid p.quantity v

abbrev pub line_ids : List PreparedItem → List ℕ
line_ids ps = map (λ p. p.menu_item_id) ps

abbrev pub AllDistinct : List ℕ → Type 0
AllDistinct [] = Unit
AllDistinct (id ∷ ids) = (includes ids id ≡ false) × AllDistinct ids

not_on_sale :
    (id k other : ℕ) (a d : Bool)
    → id ≡ k
    → (k == other) ≡ false
    → ((id == other) && a && not d) ≡ false
not_on_sale id k other a d e h = ground arith

on_sale-id : (k : ℕ) (i : MenuItem) → is_on_sale k i ≡ true → i.id ≡ k
on_sale-id k i h = eq_of_== i.id k (first (i.id == k) i.active (is_some i.deleted_at) h)
  where
    first : (x a d : Bool) → (x && a && not d) ≡ true → x ≡ true
    first x a d h = ground arith

-- Serving one line leaves the other items of the menu.
served_other :
    (rid k : ℕ) (i j : MenuItem) (menu : List MenuItem) (p : PreparedItem)
    → find (is_on_sale k) menu ≡ some i
    → j.id ≡ i.id
    → (k == p.menu_item_id) ≡ false
    → CanServe rid menu p
    → CanServe rid (update_first (is_on_sale k) (λ _. j) menu) p
served_other rid k i j menu p found same differs (v, (x, x_found, x_same), enough) =
    let key = on_sale-id k i (find_sound (is_on_sale k) menu i found) in
    (
      v,
      (
        x,
        find-update_first_other (is_on_sale k) (is_on_sale p.menu_item_id) (λ _. j) menu i found
              (not_on_sale i.id k p.menu_item_id i.active (is_some i.deleted_at) key differs)
              (not_on_sale j.id k p.menu_item_id j.active (is_some j.deleted_at) (same ∙ key)
                differs)
            ∙ x_found,
        x_same,
      ),
      enough,
    )

differ-All :
    (k : ℕ) (ps : List PreparedItem)
    → includes (line_ids ps) k ≡ false
    → All (λ p. (k == p.menu_item_id) ≡ false) ps
differ-All k [] h = tt
differ-All k (p ∷ ps) h = elim (Bool-cases (p.menu_item_id == k)) [
  | inl same ↦ absurd (ground arith)
  | inr other ↦ (ne_sym p.menu_item_id k other, differ-All k ps (rw other at h))
]
  where
    ne_sym : (a b : ℕ) → (a == b) ≡ false → (b == a) ≡ false
    ne_sym a b h = ground arith

manage_inventory-IsStocked :
    (rid : ℕ) (ps : List PreparedItem) (menu : List MenuItem)
    → AllDistinct (line_ids ps)
    → All (CanServe rid menu) ps
    → All IsStocked menu
    → ((manage_inventory rid ps menu).0 ≡ done tt) × All IsStocked (manage_inventory rid ps menu).1
unfolding manage_inventory
manage_inventory-IsStocked rid [] menu distinct can h = (refl, h)
manage_inventory-IsStocked rid (p ∷ ps) menu distinct ((v, (i, found, same), enough), can) h =
    let k = p.menu_item_id in
    let (j, takes, stocked, id_) =
      take_stock-IsStocked rid p.quantity i (subst (HasEnough rid p.quantity) (sym same) enough)
        (find-All IsStocked (is_on_sale k) menu i h found) in
    let menu' = update_first (is_on_sale k) (λ _. j) menu in
    rw (found, manage_inventory)
      (rw takes (
        manage_inventory-IsStocked rid ps menu' distinct.1
          (All-zip (λ x differs c. served_other rid k i j menu x found id_ differs c) ps
            (differ-All k ps distinct.0) can)
          (update_first-All IsStocked (is_on_sale k) (λ _. j) menu i found (λ _. stocked) h)))

answered :
    (rid : ℕ) (menu : List MenuItem) (ds : List OrderItemDto) (ps : List PreparedItem)
    → Answers ds ps
    → All (Covered is_on_sale rid menu) ds
    → All (CanServe rid menu) ps
answered rid menu [] [] a h = tt
answered rid menu [] (p ∷ ps) a h = elim a [ ]
answered rid menu (d ∷ ds) [] a h = elim a [ ]
answered rid menu (d ∷ ds) (p ∷ ps) a h =
    let (same, quantity_) = a.0 in
    (
      (
        h.0.0,
        subst (λ k. Stocks is_on_sale k menu h.0.0) (sym same) h.0.1,
        subst (λ q. HasEnough rid q h.0.0) (sym quantity_) h.0.2,
      ),
      answered rid menu ds ps a.1 h.1,
    )

-- Where no quantity of the menu is below 0, and the items of an order could be prepared from it,
-- and no menu item stands on two of its lines, `manageInventory` of the prepared items does not
-- throw, and no quantity is below 0 behind it.
pub prepared-IsStocked :
    (now : ℕ) (s : MenuStore) (h : OrderHead) (ds : List OrderItemDto) (ps : List PreparedItem)
    → prepare_order_items now s h ds ≡ done ps
    → AllDistinct (line_ids ps)
    → All IsStocked s.menu_items
    → ((manage_inventory h.restaurant_id ps s.menu_items).0 ≡ done tt)
      × All IsStocked (manage_inventory h.restaurant_id ps s.menu_items).1
prepared-IsStocked now s h ds ps e distinct stocked =
    let (answers, covered) = prepare_order_items-Covered now s h ds ps e in
    manage_inventory-IsStocked h.restaurant_id ps s.menu_items distinct
      (answered h.restaurant_id s.menu_items ds ps answers covered) stocked
