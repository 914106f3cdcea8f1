-- ===== src/Examples/Stock.antt =====
-- Calls on the products and asset units of the shop.
use rental_be_nest.Prelude.{ℕ, ◌≡◌, ◌≢◌, refl, String, none, some, [], ◌∷◌, arith}
use rental_be_nest.Result.{err, bad_request, unexpected, asset_unit_serial_number_existed}
use rental_be_nest.Exec.{◌>>=◌}
use rental_be_nest.Catalog.Tiers.{undefined, PriceTierIn}
use rental_be_nest.Inventory.Requests.{
  left_out, given, CreateProduct, UpdateProduct, UpdateAssetUnit,
}
use rental_be_nest.Catalog.{Product}
use rental_be_nest.Inventory.Requests.{check_unique}
use rental_be_nest.Inventory.Products.{product_id_of, product_sku_of, updated_product, label_of}
use rental_be_nest.Inventory.Units.{unit_id_of, serial_of}
use rental_be_nest.Inventory.Rows.{IsUnique, check_unique-IsOwned, insert-IsUnique}
use rental_be_nest.Inventory.Prices.{insert-HasPrices}
use rental_be_nest.Inventory.Writes.{IsStocked}
use rental_be_nest.Inventory.Calls.{
  add_product, change_product, change_unit, product_answer, Response, run_stock,
}
use rental_be_nest.Inventory.Calls.Stocked.{run_stock-IsStocked}
use rental_be_nest.Inventory.Calls.Expected.{run_stock-IsExpected}
use rental_be_nest.Inventory.Calls.Atomic.{run_stock-IsAtomic}
use rental_be_nest.Examples.Data.{shop, camera, unit}

abbrev as_is : String → String
as_is text = text

abbrev week : PriceTierIn
week = record {
  min_days = 7;
  max_days = undefined;
  daily_price = 90;
  name = none;
  sort_order = none;
}

abbrev tripod : CreateProduct
tripod = record {
  name = "Tripod";
  sku = "TRI";
  description = none;
  included_accessories = none;
  usage_guide = none;
  category_id = some 5;
  brand_id = none;
  daily_price = 100;
  half_day_price = 60;
  hourly_overage_price = none;
  rental_price_tiers = some (week ∷ []);
  deposit_amount = 500;
  replacement_value = none;
  is_active = none;
}

abbrev rename : UpdateProduct
rename = record {
  name = some "Camera II";
  sku = some "CAM2";
  description = given "new";
  included_accessories = left_out;
  usage_guide = left_out;
  category_id = left_out;
  brand_id = left_out;
  daily_price = none;
  half_day_price = none;
  hourly_overage_price = left_out;
  rental_price_tiers = some (week ∷ []);
  deposit_amount = none;
  replacement_value = left_out;
  is_active = none;
}

abbrev renumber : String → UpdateAssetUnit
renumber serial = record {
  product_id = none;
  serial_number = some serial;
  status = none;
  condition = none;
  note = left_out;
  is_active = none;
}

no_rows-IsUnique : {A : Type 0} (id_of : A → ℕ) (text_of : A → String) → IsUnique id_of text_of []
no_rows-IsUnique id_of text_of a b m k same = elim m [ ]

shop-IsStocked : IsStocked shop
unfolding check_unique
shop-IsStocked = (
  insert-IsUnique product_id_of product_sku_of camera [] (no_rows-IsUnique _ _)
      (check_unique-IsOwned product_id_of product_sku_of "CAM" none [] refl),
  insert-HasPrices camera [] (λ n. ground arith) (λ p m. elim m [ ]),
  insert-IsUnique unit_id_of serial_of (unit 20) (unit 21 ∷ [])
      (insert-IsUnique unit_id_of serial_of (unit 21) [] (no_rows-IsUnique _ _)
        (check_unique-IsOwned unit_id_of serial_of "S21" none [] refl))
      (check_unique-IsOwned unit_id_of serial_of "S20" none (unit 21 ∷ []) refl),
)

run_stock-IsStocked_example : IsStocked (run_stock as_is (add_product tripod) shop).1
run_stock-IsStocked_example = run_stock-IsStocked as_is (add_product tripod) shop shop-IsStocked

run_stock-IsExpected_example :
    (run_stock as_is (change_unit 20 (renumber "S22")) shop).0 ≢ err unexpected
run_stock-IsExpected_example =
    run_stock-IsExpected as_is (change_unit 20 (renumber "S22")) shop shop-IsStocked refl

-- The serial number of the other unit is refused.
run_stock-IsAtomic_example : (run_stock as_is (change_unit 20 (renumber "S21")) shop).1 ≡ shop
unfolding run_stock ◌>>=◌
run_stock-IsAtomic_example =
    run_stock-IsAtomic as_is (change_unit 20 (renumber "S21")) shop
      (bad_request asset_unit_serial_number_existed) refl

-- The camera after the update: its tiers replaced, its search text built anew.
abbrev renamed : Product
renamed =
    updated_product as_is rename camera (label_of (some 5) shop.catalog.categories) none 1000 100
      camera

-- Its answer, with the tiers that are live.
abbrev answer : Response
answer = product_answer (run_stock as_is (change_product 10 rename) shop).1 renamed
