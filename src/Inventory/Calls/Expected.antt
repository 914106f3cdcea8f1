-- ===== src/Inventory/Calls/Expected.antt =====
-- The checks of the services come before the database's: `@unique` refuses nothing.
use rental_be_nest.Prelude.{ℕ, ◌≡◌, ◌≢◌, refl, ap, String, Bool, true, none, some, List}
use rental_be_nest.Result.{
  Result, ok, err, err-injective, bad_request, unexpected, product_sku_existed,
  product_category_not_found, product_brand_not_found,
}
use rental_be_nest.Exec.{Exec, pure, reads, lift, modify, ◌>>=◌, ◌>>◌, bind_avoids}
use rental_be_nest.World.{World, ChangeReason}
use rental_be_nest.Inventory.Requests.{
  UpdateProduct, CreateProduct, CreateAssetUnit, UpdateAssetUnit, UpdateAssetUnitStatus, some_or,
  emit_changed,
}
use rental_be_nest.Inventory.Products.{
  product_id_of, product_sku_of, ensure_sku_available, create_product, update_product,
  update_product_status, delete_products,
}
use rental_be_nest.Inventory.Units.{
  unit_id_of, serial_of, create_asset_unit, update_asset_unit, update_asset_unit_status,
  delete_asset_units,
}
use rental_be_nest.Inventory.Writes.{IsStocked}
use rental_be_nest.Inventory.Calls.{
  StockCall, add_product, change_product, switch_product, remove_products, add_unit, change_unit,
  change_unit_status, remove_units, run_stock, Response, product_answer, unit_answer, answered,
  respond,
}
use rental_be_nest.Inventory.Rows.{IsOwned-check_unique, ensure_available-none}
use rental_be_nest.Inventory.Checks.{
  available-IsExpected, new_sku-IsExpected, serial-IsExpected, find_product-IsExpected,
  find_unit-IsExpected, active_product-IsExpected, product_for_update-IsExpected, IsExpected,
  ok-IsExpected, validate-IsExpected, label-IsExpected, label_for_update-IsExpected, is_not_empty,
  sku-IsOwned, serial-IsOwned, new_serial-IsOwned,
}

-- The SKU of an update and the serial number of a call's body are not empty. `@IsNotEmpty()` has it
-- for serial numbers; an update with an empty SKU skips the service's check.
abbrev pub has_text_given : StockCall → Bool
has_text_given (add_product dto) = true
has_text_given (change_product id dto) = is_not_empty dto.sku
has_text_given (switch_product id is_active) = true
has_text_given (remove_products ids) = true
has_text_given (add_unit dto) = is_not_empty (some dto.serial_number)
has_text_given (change_unit id dto) = is_not_empty dto.serial_number
has_text_given (change_unit_status id dto) = true
has_text_given (remove_units ids) = true

module _ {A : Type 0} (write : World → World) (reason : ChangeReason) (products units : List ℕ)
    (a : A) where
  -- A write and its broadcast, the end of each call.
  written_returns :
      (w : World)
      → IsExpected ((modify write >> (modify (emit_changed reason products units) >> pure a)) w).0
  unfolding ◌>>=◌
  written_returns w k = cc

answered-IsExpected :
    {A : Type 0} (body : A → Response) (r : Result A) → IsExpected r → IsExpected (answered body r)
answered-IsExpected body (ok a) h k = cc
answered-IsExpected body (err e) h k = h (ap err (err-injective k))

responded-IsExpected :
    {A : Type 0} (body : World → A → Response) (m : Exec World A) (w : World)
    → IsExpected (m w).0
    → IsExpected (respond body m w).0
responded-IsExpected body m w h = answered-IsExpected (body (m w).1) (m w).0 h

module _ (normalize : String → String) where
  add_product-IsExpected :
      (dto : CreateProduct) (w : World) → IsExpected (create_product normalize dto w).0
  unfolding create_product reads lift ensure_sku_available
  add_product-IsExpected dto w =
      bind_avoids unexpected (reads _) _ w
        (available-IsExpected product_id_of product_sku_of product_sku_existed dto.sku none
          w.catalog.products)
        (λ _ free.
          bind_avoids unexpected (lift _) _ w (validate-IsExpected dto.rental_price_tiers) (λ _ _.
            bind_avoids unexpected (reads _) _ w
              (label-IsExpected product_category_not_found dto.category_id w.catalog.categories)
              (λ category _.
                bind_avoids unexpected (reads _) _ w
                  (label-IsExpected product_brand_not_found dto.brand_id w.catalog.brands)
                  (λ brand _.
                    bind_avoids unexpected (reads _) _ w
                      (ok-IsExpected _ (
                        IsOwned-check_unique product_id_of product_sku_of dto.sku none
                          w.catalog.products
                          (ensure_available-none product_id_of product_sku_of
                            (bad_request product_sku_existed) dto.sku w.catalog.products free)))
                      (λ _ _.
                        bind_avoids unexpected (reads _) _ w (ok-IsExpected _ refl)
                          (λ product _. written_returns _ _ _ _ _ w))))))

  change_product-IsExpected :
      (id : ℕ) (dto : UpdateProduct) (w : World)
      → IsStocked w
      → is_not_empty dto.sku ≡ true
      → IsExpected (update_product normalize id dto w).0
  unfolding update_product reads lift
  change_product-IsExpected id dto w s g =
      bind_avoids unexpected (reads _) _ w (find_product-IsExpected id w) (λ existing found.
        bind_avoids unexpected (reads _) _ w (new_sku-IsExpected dto.sku id w) (λ _ free.
          bind_avoids unexpected (lift _) _ w (validate-IsExpected dto.rental_price_tiers) (λ _ _.
            bind_avoids unexpected (reads _) _ w
              (label_for_update-IsExpected product_category_not_found dto.category_id
                existing.category_id w.catalog.categories)
              (λ category _.
                bind_avoids unexpected (reads _) _ w
                  (label_for_update-IsExpected product_brand_not_found dto.brand_id
                    existing.brand_id w.catalog.brands)
                  (λ brand _.
                    bind_avoids unexpected (reads _) _ w
                      (ok-IsExpected _ (
                        IsOwned-check_unique product_id_of product_sku_of
                          (some_or dto.sku existing.sku) (some existing.id) w.catalog.products
                          (sku-IsOwned dto.sku id existing w s g found free)))
                      (λ _ _.
                        bind_avoids unexpected (reads _) _ w (ok-IsExpected _ refl)
                          (λ product _. written_returns _ _ _ _ _ w)))))))

  add_unit-IsExpected :
      (dto : CreateAssetUnit) (w : World)
      → is_not_empty (some dto.serial_number) ≡ true
      → IsExpected (create_asset_unit normalize dto w).0
  unfolding create_asset_unit reads
  add_unit-IsExpected dto w g =
      bind_avoids unexpected (reads _) _ w (serial-IsExpected (some dto.serial_number) none w)
        (λ _ free.
          bind_avoids unexpected (reads _) _ w (active_product-IsExpected dto.product_id w)
            (λ product _.
              bind_avoids unexpected (reads _) _ w
                (ok-IsExpected _ (
                  IsOwned-check_unique unit_id_of serial_of dto.serial_number none
                    w.catalog.asset_units (new_serial-IsOwned dto.serial_number w g free)))
                (λ _ _.
                  bind_avoids unexpected (reads _) _ w (ok-IsExpected _ refl)
                    (λ unit _. written_returns _ _ _ _ _ w))))

  change_unit-IsExpected :
      (id : ℕ) (dto : UpdateAssetUnit) (w : World)
      → IsStocked w
      → is_not_empty dto.serial_number ≡ true
      → IsExpected (update_asset_unit normalize id dto w).0
  unfolding update_asset_unit reads
  change_unit-IsExpected id dto w s g =
      bind_avoids unexpected (reads _) _ w (find_unit-IsExpected id w) (λ existing found.
        bind_avoids unexpected (reads _) _ w (serial-IsExpected dto.serial_number (some id) w)
          (λ _ free.
            bind_avoids unexpected (reads _) _ w
              (product_for_update-IsExpected dto.product_id existing w)
              (λ product _.
                bind_avoids unexpected (reads _) _ w
                  (ok-IsExpected _ (
                    IsOwned-check_unique unit_id_of serial_of
                      (some_or dto.serial_number existing.serial_number) (some existing.id)
                      w.catalog.asset_units
                      (serial-IsOwned dto.serial_number id existing w s g found free)))
                  (λ _ _. written_returns _ _ _ _ _ w))))

  change_unit_status-IsExpected :
      (id : ℕ) (dto : UpdateAssetUnitStatus) (w : World)
      → IsExpected (update_asset_unit_status normalize id dto w).0
  unfolding update_asset_unit_status reads
  change_unit_status-IsExpected id dto w =
      bind_avoids unexpected (reads _) _ w (find_unit-IsExpected id w) (λ existing _.
        bind_avoids unexpected (reads _) _ w (ok-IsExpected _ refl)
          (λ product _. written_returns _ _ _ _ _ w))

switch_product-IsExpected :
    (id : ℕ) (is_active : Bool) (w : World) → IsExpected (update_product_status id is_active w).0
unfolding update_product_status reads
switch_product-IsExpected id is_active w =
    bind_avoids unexpected (reads _) _ w (find_product-IsExpected id w)
      (λ existing _. written_returns _ _ _ _ _ w)

-- No call on sound tables fails in an unexpected way, which the database's unique columns would make
-- it do: where a SKU in an update and a serial number are not empty, the services' own checks have
-- refused the text before, with an error of their own.
pub run_stock-IsExpected :
    (normalize : String → String) (call : StockCall) (w : World)
    → IsStocked w
    → has_text_given call ≡ true
    → (run_stock normalize call w).0 ≢ err unexpected
unfolding run_stock delete_products delete_asset_units ◌>>=◌
run_stock-IsExpected normalize (add_product dto) w s g =
    responded-IsExpected product_answer (create_product normalize dto) w
      (add_product-IsExpected normalize dto w)
run_stock-IsExpected normalize (change_product id dto) w s g =
    responded-IsExpected product_answer (update_product normalize id dto) w
      (change_product-IsExpected normalize id dto w s g)
run_stock-IsExpected normalize (switch_product id is_active) w s g =
    responded-IsExpected product_answer (update_product_status id is_active) w
      (switch_product-IsExpected id is_active w)
run_stock-IsExpected normalize (remove_products ids) w s g = λ k. cc
run_stock-IsExpected normalize (add_unit dto) w s g =
    responded-IsExpected unit_answer (create_asset_unit normalize dto) w
      (add_unit-IsExpected normalize dto w g)
run_stock-IsExpected normalize (change_unit id dto) w s g =
    responded-IsExpected unit_answer (update_asset_unit normalize id dto) w
      (change_unit-IsExpected normalize id dto w s g)
run_stock-IsExpected normalize (change_unit_status id dto) w s g =
    responded-IsExpected unit_answer (update_asset_unit_status normalize id dto) w
      (change_unit_status-IsExpected normalize id dto w)
run_stock-IsExpected normalize (remove_units ids) w s g = λ k. cc
