-- ===== src/Menu/Stocks.antt =====
-- The stock of a menu item, and that the loop of `prepareOrderItems`
-- (src/order/order-helper.service.ts) leaves it.
use mathlib.Core.Path.{subst}
use gitrema_backend.Prelude.{
  ℕ, ◌==◌, ◌≡◌, sym, ap, ◌∙◌, ◌⊎◌, inl, inr, Bool, true, false, Option, some, List, eq_of_==, arith,
  Bool-cases, Option-cases, if◌then◌else◌,
}
use gitrema_backend.Prelude.Int.{pos, ◌≤ℤ◌, ltb_ℤ, ltb_ℤ→le}
use gitrema_backend.Prelude.Action.{
  done, failed, Failure, done-injective, type_error, menu_item_not_available,
}
use gitrema_backend.Prelude.Collection.{
  find, find_sound, update_first, find-update_first, find-update_first_other,
}
use gitrema_backend.Menu.State.{Quantity, MenuItem, MenuCategory, OrderItemDto}
use gitrema_backend.Menu.Prepare.{
  is_menu_item, of_restaurant, has_price, price_or, find_item, check_item, visited,
}

-- The fields of a menu item that say how much of it can be sold.
pub record StockView : Type 0 where
  pub id : ℕ
  pub sold_out : Bool
  pub manage_quantity : Bool
  pub quantities : List Quantity

abbrev pub stock_of : MenuItem → StockView
stock_of i = record {
  id = i.id;
  sold_out = i.sold_out;
  manage_quantity = i.manage_quantity;
  quantities = i.quantities;
}

-- An item is not sold out, and where its quantity is managed, the restaurant has enough of it.
abbrev pub HasEnough : ℕ → ℕ → StockView → Type 0
HasEnough rid q v =
    (v.sold_out ≡ false)
    × ((v.manage_quantity ≡ false)
        ⊎ ((a : Quantity) × (find (of_restaurant rid) v.quantities ≡ some a)
            × (pos q ≤ℤ a.quantity)))

pub failed-not_done : {A : Type 0} {x : Failure} {a : A} → failed x ≡ done a → ⊥
failed-not_done e = ground arith

pub check_item-HasEnough :
    (rid q : ℕ) (i : MenuItem) (u : Unit {0})
    → check_item rid q i ≡ done u
    → HasEnough rid q (stock_of i)
unfolding check_item
check_item-HasEnough rid q i u e = elim (Bool-cases i.sold_out) [
  | inl out ↦ absurd (failed-not_done (rw out at e))
  | inr left ↦ elim (Bool-cases i.manage_quantity) [
    | inr free ↦ (left, inl free)
    | inl managed ↦ elim (Option-cases (find (of_restaurant rid) i.quantities)) [
      | inl missing ↦ absurd (failed-not_done (rw (left, managed, missing) at e))
      | inr (a, found) ↦ elim (Bool-cases (ltb_ℤ a.quantity (pos q))) [
        | inl short ↦ absurd (failed-not_done (rw (left, managed, found, short) at e))
        | inr enough ↦ (left, inr (a, found, ltb_ℤ→le a.quantity (pos q) enough))
      ]
    ]
  ]
]

-- A menu has an item with the stock `v` under the identifier.
abbrev pub Stocks : (ℕ → MenuItem → Bool) → ℕ → List MenuItem → StockView → Type 0
Stocks query id menu v = (j : MenuItem) × (find (query id) menu ≡ some j) × (stock_of j ≡ v)

pub find_item-Stocks :
    (d : OrderItemDto) (menu : List MenuItem) (i : MenuItem)
    → find_item d menu ≡ done i
    → Stocks is_menu_item d.menu_item_id menu (stock_of i)
unfolding find_item
find_item-Stocks d menu i e = elim (Option-cases (find (is_menu_item d.menu_item_id) menu)) [
  | inl missing ↦ absurd (neither (has_price d.price) (rw (missing, find_item) at e))
  | inr (j, found) ↦ (j, found, priced (has_price d.price) j (rw (found, find_item) at e))
]
  where
    neither :
        (b : Bool) → (if b then failed type_error else failed menu_item_not_available) ≡ done i → ⊥
    neither true e' = failed-not_done e'
    neither false e' = failed-not_done e'

    priced :
        (b : Bool) (j : MenuItem)
        → done (if b then record j { price = price_or d.price j.price } else j) ≡ done i
        → stock_of j ≡ stock_of i
    priced true j e' = ap stock_of (done-injective e')
    priced false j e' = ap stock_of (done-injective e')

pub other_key : (a b c : ℕ) → (a == b) ≡ true → (b == c) ≡ false → (a == c) ≡ false
other_key a b c e h = ground arith

pub some-injective : {A : Type 0} {a b : A} → some a ≡ some b → a ≡ b
some-injective e = ground arith

-- The stock that is found behind the visit of an item was there before.
pub visited-Stocks :
    (k id : ℕ) (c : Option MenuCategory) (i : MenuItem) (menu : List MenuItem) (v : StockView)
    → Stocks is_menu_item k menu (stock_of i)
    → Stocks is_menu_item id (update_first (is_menu_item k) (visited c i) menu) v
    → Stocks is_menu_item id menu v
visited-Stocks k id c i menu v (j, found, same) (x, later, stock) =
    let own = find_sound (is_menu_item k) menu j found in
    let own' = subst (λ n. (n == k) ≡ true) (ap (λ s. s.id) same) own in
    elim (Bool-cases (k == id)) [
      | inl mine ↦
          let key = eq_of_== k id mine in
          let put = find-update_first (is_menu_item k) (visited c i) menu j found own' in
          let same_x = some-injective (
            sym later
            ∙ subst
                (λ n.
                  find (is_menu_item n) (update_first (is_menu_item k) (visited c i) menu)
                  ≡ some (visited c i j))
                key put) in
          (
            j,
            subst (λ n. find (is_menu_item n) menu ≡ some j) key found,
            same ∙ sym (ap stock_of same_x) ∙ stock,
          )
      | inr other ↦ (
        x,
        sym (
              find-update_first_other (is_menu_item k) (is_menu_item id) (visited c i) menu j found
                (other_key j.id k id own other) (other_key i.id k id own' other))
            ∙ later,
        stock,
      )
    ]

pub stocked_id :
    (id : ℕ) (menu : List MenuItem) (v : StockView) → Stocks is_menu_item id menu v → v.id ≡ id
stocked_id id menu v (j, found, same) =
    sym (ap (λ x. x.id) same) ∙ eq_of_== j.id id (find_sound (is_menu_item id) menu j found)
