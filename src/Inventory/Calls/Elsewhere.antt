-- ===== src/Inventory/Calls/Elsewhere.antt =====
-- Calls on products and asset units write no order and no item of one.
use rental_be_nest.Prelude.{ℕ, ◌≤◌, ◌≡◌, refl, String, Bool, List, [], ◌∷◌, unique, arith}
use rental_be_nest.Exec.{pure, reads, lift, modify, ◌>>=◌, ◌>>◌, bind_keeps}
use rental_be_nest.World.{World, ChangeReason}
use rental_be_nest.Inventory.Requests.{
  CreateProduct, UpdateProduct, CreateAssetUnit, UpdateAssetUnit, UpdateAssetUnitStatus,
  emit_changed,
}
use rental_be_nest.Inventory.Products.{
  insert_product, write_product, emit_each, emit_product_changed, write_deleted_products,
  create_product, update_product, update_product_status, delete_products,
}
use rental_be_nest.Inventory.Units.{
  insert_unit, write_deleted_units, create_asset_unit, update_asset_unit, update_asset_unit_status,
  delete_asset_units,
}
use rental_be_nest.Inventory.Calls.{
  StockCall, add_product, change_product, switch_product, remove_products, add_unit, change_unit,
  change_unit_status, remove_units, run_stock,
}

-- The tables of orders are the same, and ids that are drawn stay drawn.
abbrev pub IsElsewhere : World → World → Type 0
IsElsewhere w w' = (w'.rentals ≡ w.rentals) × (w.next_id ≤ w'.next_id)

nothing-IsElsewhere : (w : World) → IsElsewhere w w
nothing-IsElsewhere w = (refl, omega arith)

written-IsElsewhere :
    {A : Type 0} (write : World → World) (reason : ChangeReason) (products units : List ℕ) (a : A)
    (w : World)
    → IsElsewhere w (write w)
    → IsElsewhere w ((modify write >> (modify (emit_changed reason products units) >> pure a)) w).1
unfolding ◌>>=◌ emit_changed
written-IsElsewhere write reason products units a w s = s

emit_each-IsElsewhere :
    (ids : List ℕ) (w w' : World) → IsElsewhere w w' → IsElsewhere w (emit_each ids w')
unfolding emit_changed
emit_each-IsElsewhere [] w w' s = s
emit_each-IsElsewhere (id ∷ ids) w w' s = emit_each-IsElsewhere ids w (emit_product_changed id w') s

module _ (normalize : String → String) where
  create_product-IsElsewhere :
      (dto : CreateProduct) (w : World) → IsElsewhere w (create_product normalize dto w).1
  unfolding create_product insert_product reads lift
  create_product-IsElsewhere dto w =
      let same = nothing-IsElsewhere w in
      bind_keeps (IsElsewhere w) (reads _) _ w same (λ _ _.
        bind_keeps (IsElsewhere w) (lift _) _ w same (λ _ _.
          bind_keeps (IsElsewhere w) (reads _) _ w same (λ category _.
            bind_keeps (IsElsewhere w) (reads _) _ w same (λ brand _.
              bind_keeps (IsElsewhere w) (reads _) _ w same (λ _ _.
                bind_keeps (IsElsewhere w) (reads _) _ w same
                  (λ product _. written-IsElsewhere _ _ _ _ _ w (refl, omega arith)))))))

  update_product-IsElsewhere :
      (id : ℕ) (dto : UpdateProduct) (w : World)
      → IsElsewhere w (update_product normalize id dto w).1
  unfolding update_product write_product reads lift
  update_product-IsElsewhere id dto w =
      let same = nothing-IsElsewhere w in
      bind_keeps (IsElsewhere w) (reads _) _ w same (λ existing _.
        bind_keeps (IsElsewhere w) (reads _) _ w same (λ _ _.
          bind_keeps (IsElsewhere w) (lift _) _ w same (λ _ _.
            bind_keeps (IsElsewhere w) (reads _) _ w same (λ category _.
              bind_keeps (IsElsewhere w) (reads _) _ w same (λ brand _.
                bind_keeps (IsElsewhere w) (reads _) _ w same (λ _ _.
                  bind_keeps (IsElsewhere w) (reads _) _ w same
                    (λ product _. written-IsElsewhere _ _ _ _ _ w (refl, omega arith))))))))

  create_asset_unit-IsElsewhere :
      (dto : CreateAssetUnit) (w : World) → IsElsewhere w (create_asset_unit normalize dto w).1
  unfolding create_asset_unit insert_unit reads
  create_asset_unit-IsElsewhere dto w =
      let same = nothing-IsElsewhere w in
      bind_keeps (IsElsewhere w) (reads _) _ w same (λ _ _.
        bind_keeps (IsElsewhere w) (reads _) _ w same (λ product _.
          bind_keeps (IsElsewhere w) (reads _) _ w same (λ _ _.
            bind_keeps (IsElsewhere w) (reads _) _ w same
              (λ unit _. written-IsElsewhere _ _ _ _ _ w (refl, omega arith)))))

  update_asset_unit-IsElsewhere :
      (id : ℕ) (dto : UpdateAssetUnit) (w : World)
      → IsElsewhere w (update_asset_unit normalize id dto w).1
  unfolding update_asset_unit reads
  update_asset_unit-IsElsewhere id dto w =
      let same = nothing-IsElsewhere w in
      bind_keeps (IsElsewhere w) (reads _) _ w same (λ existing _.
        bind_keeps (IsElsewhere w) (reads _) _ w same (λ _ _.
          bind_keeps (IsElsewhere w) (reads _) _ w same (λ product _.
            bind_keeps (IsElsewhere w) (reads _) _ w same
              (λ _ _. written-IsElsewhere _ _ _ _ _ w same))))

  update_asset_unit_status-IsElsewhere :
      (id : ℕ) (dto : UpdateAssetUnitStatus) (w : World)
      → IsElsewhere w (update_asset_unit_status normalize id dto w).1
  unfolding update_asset_unit_status reads
  update_asset_unit_status-IsElsewhere id dto w =
      let same = nothing-IsElsewhere w in
      bind_keeps (IsElsewhere w) (reads _) _ w same (λ existing _.
        bind_keeps (IsElsewhere w) (reads _) _ w same
          (λ product _. written-IsElsewhere _ _ _ _ _ w same))

update_product_status-IsElsewhere :
    (id : ℕ) (is_active : Bool) (w : World) → IsElsewhere w (update_product_status id is_active w).1
unfolding update_product_status reads
update_product_status-IsElsewhere id is_active w =
    let same = nothing-IsElsewhere w in
    bind_keeps (IsElsewhere w) (reads _) _ w same
      (λ existing _. written-IsElsewhere _ _ _ _ _ w same)

-- A call on products or asset units, whether it returns or throws, leaves the tables of orders.
pub run_stock-IsElsewhere :
    (normalize : String → String) (call : StockCall) (w : World)
    → IsElsewhere w (run_stock normalize call w).1
unfolding run_stock delete_products write_deleted_products delete_asset_units write_deleted_units
    emit_changed ◌>>=◌
run_stock-IsElsewhere normalize (add_product dto) w = create_product-IsElsewhere normalize dto w
run_stock-IsElsewhere normalize (change_product id dto) w =
    update_product-IsElsewhere normalize id dto w
run_stock-IsElsewhere normalize (switch_product id is_active) w =
    update_product_status-IsElsewhere id is_active w
run_stock-IsElsewhere normalize (remove_products ids) w =
    emit_each-IsElsewhere (unique ids) w (write_deleted_products (unique ids) w)
      (nothing-IsElsewhere w)
run_stock-IsElsewhere normalize (add_unit dto) w = create_asset_unit-IsElsewhere normalize dto w
run_stock-IsElsewhere normalize (change_unit id dto) w =
    update_asset_unit-IsElsewhere normalize id dto w
run_stock-IsElsewhere normalize (change_unit_status id dto) w =
    update_asset_unit_status-IsElsewhere normalize id dto w
run_stock-IsElsewhere normalize (remove_units ids) w = nothing-IsElsewhere w
