-- ===== src/Inventory/Calls/Atomic.antt =====
-- A call that throws has written nothing and sent nothing.
use rental_be_nest.Prelude.{ℕ, ◌≡◌, ap, String, Bool, List}
use rental_be_nest.Result.{Result, ok, err, Error, err-injective}
use rental_be_nest.Exec.{Exec, pure, modify, ◌>>=◌, ◌>>◌, IsAtomic, reads-IsAtomic, lift-IsAtomic}
use rental_be_nest.World.{World, ChangeReason}
use rental_be_nest.Inventory.Requests.{
  UpdateProduct, CreateProduct, CreateAssetUnit, UpdateAssetUnit, UpdateAssetUnitStatus,
  emit_changed,
}
use rental_be_nest.Inventory.Products.{
  create_product, update_product, update_product_status, delete_products,
}
use rental_be_nest.Inventory.Units.{
  create_asset_unit, update_asset_unit, update_asset_unit_status, delete_asset_units,
}
use rental_be_nest.Inventory.Calls.{
  StockCall, add_product, change_product, switch_product, remove_products, add_unit, change_unit,
  change_unit_status, remove_units, run_stock, Response, product_answer, unit_answer, answered,
  respond,
}

-- A write and its broadcast, the end of each call, throw nothing.
written-IsAtomic :
    {A : Type 0} (write : World → World) (reason : ChangeReason) (products units : List ℕ) (a : A)
    → IsAtomic (modify write >> (modify (emit_changed reason products units) >> pure a))
unfolding ◌>>=◌
written-IsAtomic write reason products units a w e h = cc

answered-IsAtomic :
    {A : Type 0} (body : World → A → Response) (m : Exec World A)
    → IsAtomic m
    → IsAtomic (respond body m)
answered-IsAtomic {A = A} body m k w e h = k w e (go (m w).0 h)
  where
    go : (r : Result A) → answered (body (m w).1) r ≡ err e → r ≡ err e
    go (ok a) h = absurd (cc h)
    go (err x) h = ap err (err-injective h)

module _ (normalize : String → String) where
  create_product-IsAtomic : (dto : CreateProduct) → IsAtomic (create_product normalize dto)
  unfolding create_product
  create_product-IsAtomic dto = reads-IsAtomic _ _ (λ _. lift-IsAtomic _ _ (λ _.
      reads-IsAtomic _ _ (λ category. reads-IsAtomic _ _ (λ brand.
        reads-IsAtomic _ _ (λ _. reads-IsAtomic _ _ (λ product. written-IsAtomic _ _ _ _ _))))))

  update_product-IsAtomic :
      (id : ℕ) (dto : UpdateProduct) → IsAtomic (update_product normalize id dto)
  unfolding update_product
  update_product-IsAtomic id dto = reads-IsAtomic _ _ (λ existing. reads-IsAtomic _ _ (λ _.
      lift-IsAtomic _ _ (λ _. reads-IsAtomic _ _ (λ category. reads-IsAtomic _ _ (λ brand.
        reads-IsAtomic _ _ (λ _. reads-IsAtomic _ _ (λ product. written-IsAtomic _ _ _ _ _)))))))

  create_asset_unit-IsAtomic : (dto : CreateAssetUnit) → IsAtomic (create_asset_unit normalize dto)
  unfolding create_asset_unit
  create_asset_unit-IsAtomic dto = reads-IsAtomic _ _ (λ _. reads-IsAtomic _ _ (λ product.
      reads-IsAtomic _ _ (λ _. reads-IsAtomic _ _ (λ unit. written-IsAtomic _ _ _ _ _))))

  update_asset_unit-IsAtomic :
      (id : ℕ) (dto : UpdateAssetUnit) → IsAtomic (update_asset_unit normalize id dto)
  unfolding update_asset_unit
  update_asset_unit-IsAtomic id dto = reads-IsAtomic _ _ (λ existing.
      reads-IsAtomic _ _
        (λ _. reads-IsAtomic _ _ (λ product. reads-IsAtomic _ _ (λ _. written-IsAtomic _ _ _ _ _))))

  update_asset_unit_status-IsAtomic :
      (id : ℕ) (dto : UpdateAssetUnitStatus) → IsAtomic (update_asset_unit_status normalize id dto)
  unfolding update_asset_unit_status
  update_asset_unit_status-IsAtomic id dto =
      reads-IsAtomic _ _ (λ existing. reads-IsAtomic _ _ (λ product. written-IsAtomic _ _ _ _ _))

update_product_status-IsAtomic :
    (id : ℕ) (is_active : Bool) → IsAtomic (update_product_status id is_active)
unfolding update_product_status
update_product_status-IsAtomic id is_active =
    reads-IsAtomic _ _ (λ existing. written-IsAtomic _ _ _ _ _)

-- A call on products and asset units that throws leaves the state as it was: no row is written, no
-- id is drawn and no message sent.
pub run_stock-IsAtomic :
    (normalize : String → String) (call : StockCall) (w : World) (e : Error)
    → (run_stock normalize call w).0 ≡ err e
    → (run_stock normalize call w).1 ≡ w
unfolding run_stock delete_products delete_asset_units ◌>>=◌
run_stock-IsAtomic normalize (add_product dto) w e h =
    answered-IsAtomic product_answer _ (create_product-IsAtomic normalize dto) w e h
run_stock-IsAtomic normalize (change_product id dto) w e h =
    answered-IsAtomic product_answer _ (update_product-IsAtomic normalize id dto) w e h
run_stock-IsAtomic normalize (switch_product id is_active) w e h =
    answered-IsAtomic product_answer _ (update_product_status-IsAtomic id is_active) w e h
run_stock-IsAtomic normalize (remove_products ids) w e h = absurd (cc h)
run_stock-IsAtomic normalize (add_unit dto) w e h =
    answered-IsAtomic unit_answer _ (create_asset_unit-IsAtomic normalize dto) w e h
run_stock-IsAtomic normalize (change_unit id dto) w e h =
    answered-IsAtomic unit_answer _ (update_asset_unit-IsAtomic normalize id dto) w e h
run_stock-IsAtomic normalize (change_unit_status id dto) w e h =
    answered-IsAtomic unit_answer _ (update_asset_unit_status-IsAtomic normalize id dto) w e h
run_stock-IsAtomic normalize (remove_units ids) w e h = absurd (cc h)
