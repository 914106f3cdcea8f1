-- ===== src/Inventory/Units.antt =====
-- `createAssetUnit`, `updateAssetUnit`, `updateAssetUnitStatus` and `deleteAssetUnit` of
-- AssetUnitsService.
use rental_be_nest.Prelude.{
  ℕ, ◌+◌, String, true, ◌&&◌, Option, none, some, List, [], ◌∷◌, map, keep, find, includes, unique,
  ◌or_else◌, ◌==◌, if◌then◌else◌,
}
use rental_be_nest.Result.{
  Result, ok, err, bad_request, not_found, or_fail, product_not_found, asset_unit_not_found,
  asset_unit_serial_number_existed,
}
use rental_be_nest.Exec.{Exec, pure, reads, modify, ◌>>=◌, ◌>>◌}
use rental_be_nest.World.{World, asset_created, asset_updated, asset_deleted}
use rental_be_nest.SearchText.{build_asset_unit_search_text}
use rental_be_nest.Catalog.{AssetUnit, AssetStatus, AssetCondition, Product, is_null}
use rental_be_nest.Inventory.Requests.{
  patch, given_or, some_or, CreateAssetUnit, UpdateAssetUnit, UpdateAssetUnitStatus, emit_changed,
  ensure_available, check_unique,
}

-- The values of the enums `AssetStatus` and `AssetCondition`.
abbrev pub status_text : AssetStatus → String
status_text AssetStatus.available = "AVAILABLE"
status_text AssetStatus.reserved = "RESERVED"
status_text AssetStatus.rented = "RENTED"
status_text AssetStatus.maintenance = "MAINTENANCE"
status_text AssetStatus.retired = "RETIRED"
status_text AssetStatus.lost = "LOST"

abbrev pub condition_text : AssetCondition → String
condition_text AssetCondition.brand_new = "NEW"
condition_text AssetCondition.good = "GOOD"
condition_text AssetCondition.fair = "FAIR"
condition_text AssetCondition.damaged = "DAMAGED"
condition_text AssetCondition.lost = "LOST"

abbrev pub map_option : {A B : Type 0} → (A → B) → Option A → Option B
map_option f none = none
map_option f (some a) = some (f a)

abbrev pub unit_id_of : AssetUnit → ℕ
unit_id_of u = u.id

abbrev pub serial_of : AssetUnit → String
serial_of u = u.serial_number

-- `if (!serialNumber) return`
unfoldable pub ensure_serial_number_available : Option String → Option ℕ → World → Result (Unit {0})
unfolding ensure_available
ensure_serial_number_available none excluded w = ok tt
ensure_serial_number_available (some String.[]) excluded w = ok tt
ensure_serial_number_available (some (String.◌∷◌ c s)) excluded w =
    ensure_available unit_id_of serial_of (bad_request asset_unit_serial_number_existed)
      (String.◌∷◌ c s) excluded w.catalog.asset_units

-- `findActiveProductOrThrow`
unfoldable pub find_active_product_or_throw : ℕ → World → Result Product
find_active_product_or_throw id w =
    or_fail
      (find (λ (p : Product). p.id == id && p.is_active && is_null p.deleted_at) w.catalog.products)
      (bad_request product_not_found)

-- `findExistingAssetUnitById`
unfoldable pub find_existing_asset_unit : ℕ → World → Result AssetUnit
find_existing_asset_unit id w =
    or_fail (find (λ (u : AssetUnit). u.id == id && is_null u.deleted_at) w.catalog.asset_units)
      (not_found asset_unit_not_found)

-- The relation `product`, which the foreign key keeps.
abbrev pub product_of : AssetUnit → World → Option Product
product_of u w = find (λ (p : Product). p.id == u.product_id) w.catalog.products

-- `dto.productId ? await this.findActiveProductOrThrow(dto.productId) : existingAssetUnit.product`
unfoldable pub product_for_update : Option ℕ → AssetUnit → World → Result (Option Product)
unfolding find_active_product_or_throw
product_for_update none existing w = ok (product_of existing w)
product_for_update (some id) existing w = elim (find_active_product_or_throw id w) [
  | ok p ↦ ok (some p)
  | err e ↦ err e
]

abbrev pub name_of_product : Option Product → Option String
name_of_product p = map_option (λ (p : Product). p.name) p

abbrev pub sku_of_product : Option Product → Option String
sku_of_product p = map_option (λ (p : Product). p.sku) p

abbrev pub set_units : List AssetUnit → World → World
set_units units w = record w { catalog = record w.catalog { asset_units = units } }

abbrev pub update_unit_row : ℕ → (AssetUnit → AssetUnit) → World → World
update_unit_row id f w =
    set_units (map (λ u. if u.id == id then f u else u) w.catalog.asset_units) w

module _ (normalize_search_text : String → String) where
  unfoldable pub new_unit : CreateAssetUnit → Product → ℕ → AssetUnit
  unfolding build_asset_unit_search_text
  new_unit dto product id = record {
    id = id;
    product_id = dto.product_id;
    serial_number = dto.serial_number;
    status = dto.status or_else AssetStatus.available;
    condition = dto.condition or_else AssetCondition.good;
    note = dto.note;
    is_active = dto.is_active or_else true;
    search_text =
        build_asset_unit_search_text normalize_search_text (some dto.serial_number) dto.note
          (map_option status_text dto.status) (map_option condition_text dto.condition)
          (some product.name) (some product.sku);
    deleted_at = none;
  }

  -- `assetUnit.create`
  unfoldable pub insert_unit : CreateAssetUnit → Product → World → World
  unfolding new_unit
  insert_unit dto product w =
      record (set_units (new_unit dto product w.next_id ∷ w.catalog.asset_units) w) {
        next_id = w.next_id + 1;
      }

  unfoldable pub create_asset_unit : CreateAssetUnit → Exec World AssetUnit
  unfolding ensure_serial_number_available find_active_product_or_throw insert_unit check_unique
      emit_changed
  create_asset_unit dto = do
    reads (ensure_serial_number_available (some dto.serial_number) none)
    product ← reads (find_active_product_or_throw dto.product_id)
    reads (λ w. check_unique unit_id_of serial_of dto.serial_number none w.catalog.asset_units)
    unit ← reads (λ w. ok (new_unit dto product w.next_id))
    modify (insert_unit dto product)
    modify (emit_changed asset_created (unit.product_id ∷ []) (unit.id ∷ []))
    pure unit

  -- `data` of `updateAssetUnit`
  unfoldable pub updated_unit : UpdateAssetUnit → AssetUnit → Option Product → AssetUnit → AssetUnit
  unfolding build_asset_unit_search_text
  updated_unit dto existing product u = record u {
    product_id = some_or dto.product_id u.product_id;
    serial_number = some_or dto.serial_number u.serial_number;
    status = some_or dto.status u.status;
    condition = some_or dto.condition u.condition;
    note = patch dto.note u.note;
    is_active = some_or dto.is_active u.is_active;
    search_text =
        build_asset_unit_search_text normalize_search_text
          (some (some_or dto.serial_number existing.serial_number))
          (given_or dto.note existing.note)
          (some (status_text (some_or dto.status existing.status)))
          (some (condition_text (some_or dto.condition existing.condition)))
          (name_of_product product) (sku_of_product product);
  }

  unfoldable pub update_asset_unit : ℕ → UpdateAssetUnit → Exec World AssetUnit
  unfolding find_existing_asset_unit ensure_serial_number_available product_for_update updated_unit
      check_unique emit_changed
  update_asset_unit id dto = do
    existing ← reads (find_existing_asset_unit id)
    reads (ensure_serial_number_available dto.serial_number (some id))
    product ← reads (product_for_update dto.product_id existing)
    reads (λ w.
        check_unique unit_id_of serial_of (some_or dto.serial_number existing.serial_number)
          (some existing.id) w.catalog.asset_units)
    let unit = updated_unit dto existing product existing
    modify (update_unit_row existing.id (updated_unit dto existing product))
    modify (
        emit_changed asset_updated (unique (existing.product_id ∷ unit.product_id ∷ []))
          (unit.id ∷ []))
    pure unit

  -- `data` of `updateAssetUnitStatus`
  unfoldable pub with_new_status :
      UpdateAssetUnitStatus → AssetUnit → Option Product → AssetUnit → AssetUnit
  unfolding build_asset_unit_search_text
  with_new_status dto existing product u = record u {
    status = dto.status;
    condition = dto.condition;
    is_active = some_or dto.is_active u.is_active;
    search_text =
        build_asset_unit_search_text normalize_search_text (some existing.serial_number)
          existing.note (some (status_text dto.status)) (some (condition_text dto.condition))
          (name_of_product product) (sku_of_product product);
  }

  unfoldable pub update_asset_unit_status : ℕ → UpdateAssetUnitStatus → Exec World AssetUnit
  unfolding find_existing_asset_unit with_new_status emit_changed
  update_asset_unit_status id dto = do
    existing ← reads (find_existing_asset_unit id)
    product ← reads (λ w. ok (product_of existing w))
    let unit = with_new_status dto existing product existing
    modify (update_unit_row existing.id (with_new_status dto existing product))
    modify (emit_changed asset_updated (unit.product_id ∷ []) (unit.id ∷ []))
    pure unit

unfoldable pub write_deleted_units : List ℕ → World → World
write_deleted_units ids w =
    set_units
      (map (λ u. if includes ids u.id then record u { deleted_at = some w.now } else u)
        w.catalog.asset_units)
      w

-- `affectedAssets`
abbrev pub affected_units : List ℕ → World → List AssetUnit
affected_units ids w =
    keep (λ (u : AssetUnit). includes ids u.id && is_null u.deleted_at) w.catalog.asset_units

unfoldable pub delete_asset_units : List ℕ → Exec World (Unit {0})
unfolding write_deleted_units emit_changed
delete_asset_units asset_unit_ids = do
  let ids = unique asset_unit_ids
  affected ← reads (λ w. ok (affected_units ids w))
  modify (write_deleted_units ids)
  modify (
      emit_changed asset_deleted (unique (map (λ (u : AssetUnit). u.product_id) affected))
        (map (λ (u : AssetUnit). u.id) affected))
