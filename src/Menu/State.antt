-- ===== src/Menu/State.antt =====
-- The documents of src/menu/schemas and of the offers on items, and the items of an order before
-- and after they are prepared. Names, images and texts are left out.
use gitrema_backend.Prelude.{
  ℕ, ◌==◌, Bool, Option, List, String, [], ◌∷◌, false, true, if◌then◌else◌,
}
use gitrema_backend.Prelude.Int.{ℤ}
use gitrema_backend.Pricing.{Offer}

pub record MarketPrice : Type 0 where
  pub name : String
  pub price : ℤ

-- What a restaurant has of an item. The code lets it fall below 0.
pub record Quantity : Type 0 where
  pub restaurant_id : ℕ
  pub quantity : ℤ

-- `category_key` is what `categoryId?.toString()` looks up in the cache. It is `category_id` until
-- the loop of `prepareOrderItems` overwrites the field by the category that it found.
pub record MenuItem : Type 0 where
  pub id : ℕ
  pub category_id : Option ℕ
  pub category_key : Option ℕ
  pub price : ℤ
  pub prices_for_markets : Option (List MarketPrice)
  pub tax_enabled : Bool
  pub sold_out : Bool
  pub manage_quantity : Bool
  pub quantities : List Quantity
  pub preparation_time : ℕ
  pub active : Bool
  pub deleted_at : Option ℕ

-- An option of an addition, and an addition, as the cache has them.
pub record AdditionOption : Type 0 where
  pub id : ℕ
  pub price : ℤ
  pub market_prices : Option (List MarketPrice)

pub record MenuAddition : Type 0 where
  pub id : ℕ
  pub tax_enabled : Bool
  pub options : List AdditionOption

pub record MenuCategory : Type 0 where
  pub id : ℕ
  pub kitchen_queue_id : Option ℕ

pub record ItemOffer : Type 0 where
  pub offer : Offer
  pub menu_category_ids : List ℕ
  pub menu_item_ids : List ℕ

-- The choice of a guest.
pub record OptionDto : Type 0 where
  pub option_id : ℕ
  pub price : Option ℤ

pub record MenuAdditionDto : Type 0 where
  pub menu_addition_id : ℕ
  pub options : Option (List OptionDto)

-- A whole quantity that is not negative; the code takes any number.
pub record OrderItemDto : Type 0 where
  pub menu_item_id : ℕ
  pub additions : List MenuAdditionDto
  pub quantity : ℕ
  pub price : Option ℤ

pub data Source : Type 0 where
  app website dine_in market_place : Source

-- What `prepareOrderItems` reads of an order apart from its items.
pub record OrderHead : Type 0 where
  pub restaurant_id : ℕ
  pub source : Source
  pub market_place_type : Option String
  pub tax_rate : ℕ
  pub coupon_code : Option String
  pub kitchen_queue_id : Option ℕ

-- The collections and the cache.
pub record MenuStore : Type 0 where
  pub menu_items : List MenuItem
  pub offers : List ItemOffer
  pub cached_additions : List MenuAddition
  pub cached_categories : List MenuCategory

-- The amounts of a line, rounded.
pub record LineAmounts : Type 0 where
  pub unit_price_before_discount : ℤ
  pub amount_before_discount : ℤ
  pub unit_price_discount : ℤ
  pub discount : ℤ
  pub unit_price_after_discount : ℤ
  pub amount_after_discount : ℤ
  pub item_taxable_amount : ℤ
  pub tax : ℤ

pub record PreparedOption : Type 0 where
  pub option_id : ℕ
  pub amounts : LineAmounts

pub record PreparedItem : Type 0 where
  pub menu_item_id : ℕ
  pub quantity : ℕ
  pub item_amounts : LineAmounts
  pub options : List PreparedOption
  pub amounts : LineAmounts
  pub preparation_time : ℕ
  pub kitchen_queue_id : Option ℕ

abbrev pub includes : List ℕ → ℕ → Bool
includes [] x = false
includes (y ∷ ys) x = if y == x then true else includes ys x
