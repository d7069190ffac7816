-- ===== src/Menu/Stock.antt =====
-- `manageInventory` of src/order/order-helper.service.ts: what an order takes from the menu.
use gitrema_backend.Prelude.{
  ℕ, if◌then◌else◌, Bool, true, not, ◌&&◌, none, some, List, [], ◌∷◌, is_some,
}
use gitrema_backend.Prelude.Int.{pos, ◌-ℤ◌, eqb_ℤ}
use gitrema_backend.Prelude.Action.{Outcome, done, failed, type_error}
use gitrema_backend.Prelude.Collection.{find, update_first}
use gitrema_backend.Menu.State.{Quantity, MenuItem, PreparedItem}
use gitrema_backend.Menu.Prepare.{is_menu_item, of_restaurant}

abbrev pub take_quantity : ℕ → Quantity → Quantity
take_quantity q a = record a { quantity = a.quantity -ℤ pos q }

-- The item is sold out once just nothing is left.
abbrev pub left_of : ℕ → ℕ → Quantity → MenuItem → MenuItem
left_of rid q a i = record i {
  quantities = update_first (of_restaurant rid) (take_quantity q) i.quantities;
  sold_out = if eqb_ℤ (take_quantity q a).quantity (pos 0) then true else i.sold_out;
}

-- A managed item of which the restaurant has no quantity: `quantities[-1]` throws.
unfoldable pub take_stock : ℕ → ℕ → MenuItem → Outcome MenuItem
take_stock rid q i =
    if i.manage_quantity
    then elim (find (of_restaurant rid) i.quantities) [
      | none ↦ failed type_error
      | some a ↦ done (left_of rid q a i)
    ]
    else done i

-- The query of `manageInventory`.
abbrev pub is_on_sale : ℕ → MenuItem → Bool
is_on_sale id i = is_menu_item id i && i.active && not (is_some i.deleted_at)

-- The loop. What was saved before a throw stays saved.
unfoldable pub manage_inventory :
    ℕ → List PreparedItem → List MenuItem → Outcome (Unit {0}) × List MenuItem
unfolding take_stock
manage_inventory rid [] menu = (done tt, menu)
manage_inventory rid (p ∷ ps) menu = elim (find (is_on_sale p.menu_item_id) menu) [
  | none ↦ manage_inventory rid ps menu
  | some i ↦ elim (take_stock rid p.quantity i) [
    | failed e ↦ (failed e, menu)
    | done i' ↦ manage_inventory rid ps (update_first (is_on_sale p.menu_item_id) (λ _. i') menu)
  ]
]
