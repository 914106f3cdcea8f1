-- ===== src/Inventory/Calls.antt =====
-- The calls of src/modules/products/products.service.ts and
-- src/modules/asset-units/asset-units.service.ts that write.
pub mod Stocked
pub mod Expected
pub mod Atomic
pub mod Answers
pub mod Stored
pub mod Elsewhere
use rental_be_nest.Prelude.{ℕ, String, Bool, Option, List}
use rental_be_nest.Result.{Result, ok, err}
use rental_be_nest.Exec.{Exec}
use rental_be_nest.World.{World}
use rental_be_nest.Catalog.{Product, AssetUnit, Label}
use rental_be_nest.Catalog.Queries.{with_live_tiers}
use rental_be_nest.Inventory.Requests.{
  CreateProduct, UpdateProduct, CreateAssetUnit, UpdateAssetUnit, UpdateAssetUnitStatus,
}
use rental_be_nest.Inventory.Products.{
  create_product, update_product, update_product_status, delete_products, label_of,
}
use rental_be_nest.Inventory.Units.{
  create_asset_unit, update_asset_unit, update_asset_unit_status, delete_asset_units, product_of,
}

pub data StockCall : Type 0 where
  add_product : CreateProduct → StockCall
  change_product : ℕ → UpdateProduct → StockCall
  switch_product : ℕ → Bool → StockCall
  remove_products : List ℕ → StockCall
  add_unit : CreateAssetUnit → StockCall
  change_unit : ℕ → UpdateAssetUnit → StockCall
  change_unit_status : ℕ → UpdateAssetUnitStatus → StockCall
  remove_units : List ℕ → StockCall

-- A row with what `productInclude` reads beside it, of which the body of a response is a copy, column
-- by column: the live price tiers in their order, the category and the brand.
pub record ProductBody : Type 0 where
  pub product : Product
  pub category : Option Label
  pub brand : Option Label

pub record UnitBody : Type 0 where
  pub unit : AssetUnit
  pub product : Option Product

abbrev pub product_included : World → Product → ProductBody
product_included w p = record {
  product = with_live_tiers p;
  category = label_of p.category_id w.catalog.categories;
  brand = label_of p.brand_id w.catalog.brands;
}

abbrev pub unit_included : World → AssetUnit → UnitBody
unit_included w u = record { unit = u; product = product_of u w }

-- The body of a response.
pub data Response : Type 0 where
  no_body : Response
  product_body : ProductBody → Response
  unit_body : UnitBody → Response

abbrev pub product_answer : World → Product → Response
product_answer w p = product_body (product_included w p)

abbrev pub unit_answer : World → AssetUnit → Response
unit_answer w u = unit_body (unit_included w u)

module _ {A : Type 0} where
  abbrev pub answered : (A → Response) → Result A → Result Response
  answered body (ok a) = ok (body a)
  answered body (err e) = err e

  -- What is answered is read after the write.
  abbrev pub respond : (World → A → Response) → Exec World A → Exec World Response
  respond body m w = (answered (body (m w).1) (m w).0, (m w).1)

module _ (normalize_search_text : String → String) where
  unfoldable pub run_stock : StockCall → Exec World Response
  unfolding create_product update_product update_product_status delete_products create_asset_unit
      update_asset_unit update_asset_unit_status delete_asset_units
  run_stock (add_product dto) = respond product_answer (create_product normalize_search_text dto)
  run_stock (change_product id dto) =
      respond product_answer (update_product normalize_search_text id dto)
  run_stock (switch_product id is_active) =
      respond product_answer (update_product_status id is_active)
  run_stock (remove_products ids) = respond (λ _ _. no_body) (delete_products ids)
  run_stock (add_unit dto) = respond unit_answer (create_asset_unit normalize_search_text dto)
  run_stock (change_unit id dto) =
      respond unit_answer (update_asset_unit normalize_search_text id dto)
  run_stock (change_unit_status id dto) =
      respond unit_answer (update_asset_unit_status normalize_search_text id dto)
  run_stock (remove_units ids) = respond (λ _ _. no_body) (delete_asset_units ids)
