-- ===== src/Inventory/Products.antt =====
-- `createProduct`, `updateProduct`, `updateProductStatus` and `deleteProducts` of ProductsService.
use rental_be_nest.Prelude.{
  ℕ, ◌+◌, String, Bool, true, ◌&&◌, Option, none, some, List, [], ◌∷◌, map, find, includes, unique,
  length, ◌or_else◌, ◌==◌, if◌then◌else◌,
}
use rental_be_nest.Result.{
  Result, ok, err, bad_request, not_found, or_fail, product_not_found, product_sku_existed,
  product_category_not_found, product_brand_not_found, ErrorCode,
}
use rental_be_nest.Exec.{Exec, pure, reads, lift, modify, ◌>>=◌, ◌>>◌}
use rental_be_nest.World.{World, product_updated}
use rental_be_nest.SearchText.{build_product_search_text}
use rental_be_nest.Catalog.{Product, Label, is_null}
use rental_be_nest.Catalog.Tiers.{validate_rental_price_tiers}
use rental_be_nest.Inventory.Tiers.{create_tiers, tiers_or_none, updated_tiers}
use rental_be_nest.Inventory.Requests.{
  Patch, left_out, to_null, given, patch, given_or, some_or, CreateProduct, UpdateProduct,
  emit_changed, ensure_available, check_unique,
}

abbrev pub product_id_of : Product → ℕ
product_id_of p = p.id

abbrev pub product_sku_of : Product → String
product_sku_of p = p.sku

abbrev pub name_of : Option Label → Option String
name_of none = none
name_of (some label) = some label.name

-- `findCategoryOrThrow` and `findBrandOrThrow`
unfoldable pub find_label_or_throw : ErrorCode → Option ℕ → List Label → Result (Option Label)
find_label_or_throw e none labels = ok none
find_label_or_throw e (some id) labels =
    elim (find (λ (l : Label). l.id == id && l.is_active) labels) [
      | none ↦ err (bad_request e)
      | some label ↦ ok (some label)
    ]

-- The relation of an existing product, whether active or not.
abbrev pub label_of : Option ℕ → List Label → Option Label
label_of none labels = none
label_of (some id) labels = find (λ (l : Label). l.id == id) labels

-- `dto.categoryId ? this.findCategoryOrThrow(dto.categoryId) : existingProduct.category`
unfoldable pub label_for_update :
    ErrorCode → Patch ℕ → Option ℕ → List Label → Result (Option Label)
unfolding find_label_or_throw
label_for_update e left_out old labels = ok (label_of old labels)
label_for_update e to_null old labels = ok (label_of old labels)
label_for_update e (given id) old labels = find_label_or_throw e (some id) labels

-- `findExistingProductById`
unfoldable pub find_existing_product : ℕ → World → Result Product
find_existing_product id w =
    or_fail (find (λ (p : Product). p.id == id && is_null p.deleted_at) w.catalog.products)
      (not_found product_not_found)

abbrev pub set_products : List Product → World → World
set_products products w = record w { catalog = record w.catalog { products = products } }

abbrev pub update_product_row : ℕ → (Product → Product) → World → World
update_product_row id f w =
    set_products (map (λ p. if p.id == id then f p else p) w.catalog.products) w

-- `emitAvailabilityChanged`
abbrev pub emit_product_changed : ℕ → World → World
emit_product_changed id w = emit_changed product_updated (id ∷ []) [] w

unfoldable pub ensure_sku_available : String → Option ℕ → World → Result (Unit {0})
unfolding ensure_available
ensure_sku_available sku excluded w =
    ensure_available product_id_of product_sku_of (bad_request product_sku_existed) sku excluded
      w.catalog.products

-- `if (dto.sku)`
abbrev pub ensure_new_sku : Option String → ℕ → World → Result (Unit {0})
ensure_new_sku none id w = ok tt
ensure_new_sku (some String.[]) id w = ok tt
ensure_new_sku (some (String.◌∷◌ c s)) id w = ensure_sku_available (String.◌∷◌ c s) (some id) w

module _ (normalize_search_text : String → String) where
  unfoldable pub new_product : CreateProduct → Option Label → Option Label → ℕ → Product
  unfolding build_product_search_text
  new_product dto category brand id = record {
    id = id;
    name = dto.name;
    sku = dto.sku;
    description = dto.description;
    included_accessories = dto.included_accessories;
    usage_guide = dto.usage_guide;
    category_id = dto.category_id;
    brand_id = dto.brand_id;
    daily_price = dto.daily_price;
    half_day_price = dto.half_day_price;
    hourly_overage_price = dto.hourly_overage_price;
    rental_price_tiers = create_tiers (id + 1) (tiers_or_none dto.rental_price_tiers);
    deposit_amount = dto.deposit_amount;
    replacement_value = dto.replacement_value;
    is_active = dto.is_active or_else true;
    search_text =
        build_product_search_text normalize_search_text (some dto.name) (some dto.sku)
          (name_of brand) (name_of category) dto.description;
    deleted_at = none;
  }

  -- `product.create`
  unfoldable pub insert_product : CreateProduct → Option Label → Option Label → World → World
  unfolding new_product
  insert_product dto category brand w =
      record (set_products (new_product dto category brand w.next_id ∷ w.catalog.products) w) {
        next_id = w.next_id + 1 + length (tiers_or_none dto.rental_price_tiers);
      }

  unfoldable pub create_product : CreateProduct → Exec World Product
  unfolding ensure_sku_available find_label_or_throw insert_product check_unique emit_changed
  create_product dto = do
    reads (ensure_sku_available dto.sku none)
    lift (validate_rental_price_tiers dto.rental_price_tiers)
    category ←
        reads
          (λ w. find_label_or_throw product_category_not_found dto.category_id w.catalog.categories)
    brand ← reads (λ w. find_label_or_throw product_brand_not_found dto.brand_id w.catalog.brands)
    reads (λ w. check_unique product_id_of product_sku_of dto.sku none w.catalog.products)
    product ← reads (λ w. ok (new_product dto category brand w.next_id))
    modify (insert_product dto category brand)
    modify (emit_product_changed product.id)
    pure product

  -- `data` of `updateProduct`
  unfoldable pub updated_product :
      UpdateProduct → Product → Option Label → Option Label → ℕ → ℕ → Product → Product
  unfolding build_product_search_text
  updated_product dto existing category brand now id p = record p {
    name = some_or dto.name p.name;
    sku = some_or dto.sku p.sku;
    description = patch dto.description p.description;
    included_accessories = patch dto.included_accessories p.included_accessories;
    usage_guide = patch dto.usage_guide p.usage_guide;
    category_id = patch dto.category_id p.category_id;
    brand_id = patch dto.brand_id p.brand_id;
    daily_price = some_or dto.daily_price p.daily_price;
    half_day_price = some_or dto.half_day_price p.half_day_price;
    hourly_overage_price = patch dto.hourly_overage_price p.hourly_overage_price;
    rental_price_tiers = updated_tiers dto.rental_price_tiers now id p.rental_price_tiers;
    deposit_amount = some_or dto.deposit_amount p.deposit_amount;
    replacement_value = patch dto.replacement_value p.replacement_value;
    is_active = some_or dto.is_active p.is_active;
    search_text =
        build_product_search_text normalize_search_text (some (some_or dto.name existing.name))
          (some (some_or dto.sku existing.sku)) (name_of brand) (name_of category)
          (given_or dto.description existing.description);
  }

  -- `product.update`
  unfoldable pub write_product :
      UpdateProduct → Product → Option Label → Option Label → World → World
  unfolding updated_product
  write_product dto existing category brand w =
      record (update_product_row existing.id
        (updated_product dto existing category brand w.now w.next_id) w) {
          next_id = w.next_id + length (tiers_or_none dto.rental_price_tiers);
        }

  unfoldable pub update_product : ℕ → UpdateProduct → Exec World Product
  unfolding find_existing_product label_for_update write_product check_unique emit_changed
      ensure_sku_available
  update_product id dto = do
    existing ← reads (find_existing_product id)
    reads (ensure_new_sku dto.sku id)
    lift (validate_rental_price_tiers dto.rental_price_tiers)
    category ← reads (λ w.
        label_for_update product_category_not_found dto.category_id existing.category_id
          w.catalog.categories)
    brand ← reads (λ w.
        label_for_update product_brand_not_found dto.brand_id existing.brand_id w.catalog.brands)
    reads (λ w.
        check_unique product_id_of product_sku_of (some_or dto.sku existing.sku) (some existing.id)
          w.catalog.products)
    product ← reads (λ w. ok (updated_product dto existing category brand w.now w.next_id existing))
    modify (write_product dto existing category brand)
    modify (emit_product_changed existing.id)
    pure product

abbrev pub with_activity : Bool → Product → Product
with_activity is_active p = record p { is_active = is_active }

unfoldable pub update_product_status : ℕ → Bool → Exec World Product
unfolding find_existing_product emit_changed
update_product_status id is_active = do
  existing ← reads (find_existing_product id)
  modify (update_product_row id (with_activity is_active))
  modify (emit_product_changed existing.id)
  pure (with_activity is_active existing)

-- `uniqueIds.forEach((id) => this.emitAvailabilityChanged(id))`
abbrev pub emit_each : List ℕ → World → World
emit_each [] w = w
emit_each (id ∷ ids) w = emit_each ids (emit_product_changed id w)

unfoldable pub write_deleted_products : List ℕ → World → World
write_deleted_products ids w =
    set_products
      (map (λ p. if includes ids p.id then record p { deleted_at = some w.now } else p)
        w.catalog.products)
      w

-- With no ids nothing is written and nothing sent, as the source's early return has it.
unfoldable pub delete_products : List ℕ → Exec World (Unit {0})
unfolding write_deleted_products emit_changed
delete_products product_ids = do
  modify (write_deleted_products (unique product_ids))
  modify (emit_each (unique product_ids))
