-- ===== src/Inventory/Calls/Stocked.antt =====
-- What every call that writes products or asset units keeps.
use rental_be_nest.Prelude.{
  ℕ, refl, String, Bool, inl, inr, List, includes, unique, Bool-cases, ◌==◌, if◌then◌else◌,
}
use rental_be_nest.Exec.{pure, reads, lift, modify, ◌>>=◌, ◌>>◌, bind_keeps}
use rental_be_nest.World.{World, ChangeReason}
use rental_be_nest.Inventory.Requests.{
  UpdateProduct, CreateProduct, CreateAssetUnit, UpdateAssetUnit, UpdateAssetUnitStatus,
  emit_changed,
}
use rental_be_nest.Inventory.Products.{
  create_product, update_product, update_product_status, delete_products, with_activity,
  write_deleted_products,
}
use rental_be_nest.Inventory.Units.{
  with_new_status, write_deleted_units, create_asset_unit, update_asset_unit,
  update_asset_unit_status, delete_asset_units,
}
use rental_be_nest.Inventory.Writes.{
  IsStocked, insert_product_keeps, write_product_keeps, map_products_keeps, emit_each_keeps,
  same_units_keeps, insert_unit_keeps, update_unit_keeps,
}
use rental_be_nest.Inventory.Calls.{
  StockCall, add_product, change_product, switch_product, remove_products, add_unit, change_unit,
  change_unit_status, remove_units, run_stock,
}

-- A write and its broadcast, the end of each call.
written_keeps :
    {A : Type 0} (write : World → World) (reason : ChangeReason) (products units : List ℕ) (a : A)
    (w : World)
    → IsStocked (write w)
    → IsStocked ((modify write >> (modify (emit_changed reason products units) >> pure a)) w).1
unfolding ◌>>=◌ emit_changed
written_keeps write reason products units a w s = s

-- Every call keeps the tables of products and asset units sound.
module _ (normalize : String → String) where
  add_product_keeps :
      (dto : CreateProduct) (w : World) → IsStocked w → IsStocked (create_product normalize dto w).1
  unfolding create_product reads lift
  add_product_keeps dto w s = bind_keeps IsStocked (reads _) _ w s (λ _ _.
      bind_keeps IsStocked (lift _) _ w s (λ _ valid.
        bind_keeps IsStocked (reads _) _ w s (λ category _.
          bind_keeps IsStocked (reads _) _ w s (λ brand _.
            bind_keeps IsStocked (reads _) _ w s (λ _ free.
              bind_keeps IsStocked (reads _) _ w s (λ product _.
                written_keeps _ _ _ _ _ w
                  (insert_product_keeps normalize dto category brand w valid free s)))))))

  change_product_keeps :
      (id : ℕ) (dto : UpdateProduct) (w : World)
      → IsStocked w
      → IsStocked (update_product normalize id dto w).1
  unfolding update_product reads lift
  change_product_keeps id dto w s = bind_keeps IsStocked (reads _) _ w s (λ existing _.
      bind_keeps IsStocked (reads _) _ w s (λ _ _. bind_keeps IsStocked (lift _) _ w s (λ _ valid.
        bind_keeps IsStocked (reads _) _ w s (λ category _.
          bind_keeps IsStocked (reads _) _ w s (λ brand _.
            bind_keeps IsStocked (reads _) _ w s (λ _ free.
              bind_keeps IsStocked (reads _) _ w s (λ product _.
                written_keeps _ _ _ _ _ w
                  (write_product_keeps normalize dto existing category brand w valid free s))))))))

  add_unit_keeps :
      (dto : CreateAssetUnit) (w : World)
      → IsStocked w
      → IsStocked (create_asset_unit normalize dto w).1
  unfolding create_asset_unit reads lift
  add_unit_keeps dto w s = bind_keeps IsStocked (reads _) _ w s (λ _ _.
      bind_keeps IsStocked (reads _) _ w s (λ product _.
        bind_keeps IsStocked (reads _) _ w s (λ _ free.
          bind_keeps IsStocked (reads _) _ w s (λ unit _.
            written_keeps _ _ _ _ _ w (insert_unit_keeps normalize dto product w free s)))))

  change_unit_keeps :
      (id : ℕ) (dto : UpdateAssetUnit) (w : World)
      → IsStocked w
      → IsStocked (update_asset_unit normalize id dto w).1
  unfolding update_asset_unit reads lift
  change_unit_keeps id dto w s = bind_keeps IsStocked (reads _) _ w s (λ existing _.
      bind_keeps IsStocked (reads _) _ w s (λ _ _.
        bind_keeps IsStocked (reads _) _ w s (λ product _.
          bind_keeps IsStocked (reads _) _ w s (λ _ free.
            written_keeps _ _ _ _ _ w
              (update_unit_keeps normalize dto existing product w free s)))))

  change_unit_status_keeps :
      (id : ℕ) (dto : UpdateAssetUnitStatus) (w : World)
      → IsStocked w
      → IsStocked (update_asset_unit_status normalize id dto w).1
  unfolding update_asset_unit_status with_new_status reads lift
  change_unit_status_keeps id dto w s = bind_keeps IsStocked (reads _) _ w s (λ existing _.
      bind_keeps IsStocked (reads _) _ w s (λ product _. written_keeps _ _ _ _ _ w (
        same_units_keeps _ w
          (λ u. elim (Bool-cases (u.id == existing.id)) [
            | inl here ↦ rw (here) (refl, refl)
            | inr other ↦ rw (other) (refl, refl)
          ])
          s)))

switch_product_keeps :
    (id : ℕ) (is_active : Bool) (w : World)
    → IsStocked w
    → IsStocked (update_product_status id is_active w).1
unfolding update_product_status reads lift
switch_product_keeps id is_active w s = bind_keeps IsStocked (reads _) _ w s (λ existing _.
    written_keeps _ _ _ _ _ w (
      map_products_keeps (λ p. if p.id == id then with_activity is_active p else p) w
        (λ p. elim (Bool-cases (p.id == id)) [
          | inl here ↦ rw (here) (refl, refl, refl)
          | inr other ↦ rw (other) (refl, refl, refl)
        ])
        s))

remove_products_keeps :
    (ids : List ℕ) (w : World) → IsStocked w → IsStocked (delete_products ids w).1
unfolding delete_products write_deleted_products ◌>>=◌
remove_products_keeps ids w s =
    emit_each_keeps (unique ids) (write_deleted_products (unique ids) w) (
      map_products_keeps _ w
        (λ p. elim (Bool-cases (includes (unique ids) p.id)) [
          | inl here ↦ rw (here) (refl, refl, refl)
          | inr other ↦ rw (other) (refl, refl, refl)
        ])
        s)

remove_units_keeps :
    (ids : List ℕ) (w : World) → IsStocked w → IsStocked (delete_asset_units ids w).1
unfolding delete_asset_units write_deleted_units ◌>>=◌ emit_changed
remove_units_keeps ids w s =
    same_units_keeps _ w
      (λ u. elim (Bool-cases (includes (unique ids) u.id)) [
        | inl here ↦ rw (here) (refl, refl)
        | inr other ↦ rw (other) (refl, refl)
      ])
      s

-- Every call on products and asset units, whether it returns or throws, keeps each SKU and each
-- serial number on one row, and keeps the live price tiers of every product free of a number of
-- days that two of them cover.
pub run_stock-IsStocked :
    (normalize : String → String) (call : StockCall) (w : World)
    → IsStocked w
    → IsStocked (run_stock normalize call w).1
unfolding run_stock
run_stock-IsStocked normalize (add_product dto) w s = add_product_keeps normalize dto w s
run_stock-IsStocked normalize (change_product id dto) w s =
    change_product_keeps normalize id dto w s
run_stock-IsStocked normalize (switch_product id is_active) w s =
    switch_product_keeps id is_active w s
run_stock-IsStocked normalize (remove_products ids) w s = remove_products_keeps ids w s
run_stock-IsStocked normalize (add_unit dto) w s = add_unit_keeps normalize dto w s
run_stock-IsStocked normalize (change_unit id dto) w s = change_unit_keeps normalize id dto w s
run_stock-IsStocked normalize (change_unit_status id dto) w s =
    change_unit_status_keeps normalize id dto w s
run_stock-IsStocked normalize (remove_units ids) w s = remove_units_keeps ids w s
