-- ===== src/Inventory/Writes.antt =====
-- What the writes of products and asset units keep.
use rental_be_nest.Prelude.{
  ℕ, ◌≤◌, ◌+◌, ◌≡◌, refl, sym, subst, String, ◌⊎◌, inl, inr, Option, none, some, List, [], ◌∷◌, map,
  count, ==_iff, Bool-cases, ◌==◌, if◌then◌else◌,
}
use rental_be_nest.Result.{ok}
use rental_be_nest.World.{World, ChangeReason}
use rental_be_nest.Catalog.{Product, AssetUnit, Label}
use rental_be_nest.Catalog.Tiers.{validate_rental_price_tiers}
use rental_be_nest.Inventory.Requests.{
  UpdateProduct, CreateProduct, CreateAssetUnit, UpdateAssetUnit, some_or, emit_changed,
  check_unique,
}
use rental_be_nest.Inventory.Products.{
  product_id_of, product_sku_of, new_product, insert_product, updated_product, write_product,
  emit_each, set_products,
}
use rental_be_nest.Inventory.Units.{
  unit_id_of, serial_of, set_units, new_unit, insert_unit, updated_unit, update_unit_row,
}
use rental_be_nest.Inventory.Prices.{
  is_live_for, HasPrices, create_tiers-HasOnePrice, updated_tiers-HasOnePrice, map-HasPrices,
  insert-HasPrices,
}
use rental_be_nest.Inventory.Rows.{
  IsUnique, IsOwned, Rewrites, check_unique-IsOwned, insert-IsUnique, map-IsUnique, same-IsUnique,
}

-- SKUs and serial numbers belong to one row each, and the live tiers of a product share no day.
abbrev pub IsStocked : World → Type 0
IsStocked w =
    IsUnique product_id_of product_sku_of w.catalog.products
    × HasPrices w.catalog.products
    × IsUnique unit_id_of serial_of w.catalog.asset_units

-- A row that a write by id meets, and the rows that it passes over.
at_id :
    {A : Type 0} (id_of : A → ℕ) (text_of : A → String) (text : String) (id : ℕ) (f : A → A) (a : A)
    → (id_of (f a) ≡ id_of a) × ((text_of (f a) ≡ text_of a) ⊎ (text_of (f a) ≡ text))
    → Rewrites id_of text_of text id a (if id_of a == id then f a else a)
at_id id_of text_of text id f a (i, t) = elim (Bool-cases (id_of a == id)) [
  | inr other ↦ rw (other) (refl, inl refl)
  | inl here ↦
      let is_id = (==_iff (id_of a) id).0 here in
      rw (here) (i, elim t [ inl old ↦ inl old | inr new ↦ inr (new, is_id) ])
]

some_or-cases :
    (new : Option String) (old base : String)
    → (some_or new old ≡ old) ⊎ (some_or new old ≡ some_or new base)
some_or-cases none old base = inl refl
some_or-cases (some s) old base = inr refl

-- The writes of `Inventory/Products.antt`.
module _ (normalize : String → String) where
  pub insert_product_keeps :
      (dto : CreateProduct) (category brand : Option Label) (w : World) {r u : Unit {0}}
      → validate_rental_price_tiers dto.rental_price_tiers ≡ ok r
      → check_unique product_id_of product_sku_of dto.sku none w.catalog.products ≡ ok u
      → IsStocked w
      → IsStocked (insert_product normalize dto category brand w)
  unfolding insert_product new_product
  insert_product_keeps dto category brand w valid free (skus, prices, serials) =
      let row = new_product normalize dto category brand w.next_id in
      (
        insert-IsUnique product_id_of product_sku_of row w.catalog.products skus (
            check_unique-IsOwned product_id_of product_sku_of dto.sku none w.catalog.products free),
        insert-HasPrices row w.catalog.products
            (create_tiers-HasOnePrice (w.next_id + 1) dto.rental_price_tiers valid) prices,
        serials,
      )

  pub write_product_keeps :
      (dto : UpdateProduct) (existing : Product) (category brand : Option Label) (w : World)
      {r u : Unit {0}}
      → validate_rental_price_tiers dto.rental_price_tiers ≡ ok r
      → check_unique product_id_of product_sku_of
          (some_or dto.sku existing.sku)
          (some existing.id)
          w.catalog.products
        ≡ ok u
      → IsStocked w
      → IsStocked (write_product normalize dto existing category brand w)
  unfolding write_product updated_product
  write_product_keeps dto existing category brand w valid free (skus, prices, serials) =
      let sku = some_or dto.sku existing.sku in
      let write = updated_product normalize dto existing category brand w.now w.next_id in
      let rows = w.catalog.products in
      (
        map-IsUnique product_id_of product_sku_of sku existing.id
            (λ p. if p.id == existing.id then write p else p) rows
            (λ p.
              at_id product_id_of product_sku_of sku existing.id write p
                (refl, some_or-cases dto.sku p.sku existing.sku))
            (check_unique-IsOwned product_id_of product_sku_of sku (some existing.id) rows free)
            skus,
        map-HasPrices (λ p. if p.id == existing.id then write p else p) rows
            (λ p one. elim (Bool-cases (p.id == existing.id)) [
              | inr other ↦ rw (other) one
              | inl here ↦ rw (here) (
                  updated_tiers-HasOnePrice dto.rental_price_tiers w.now w.next_id
                    p.rental_price_tiers valid one)
            ])
            prices,
        serials,
      )

-- A write that keeps ids, SKUs and tiers.
pub map_products_keeps :
    (f : Product → Product) (w : World)
    → ((p : Product)
        → ((f p).id ≡ p.id)
          × ((f p).sku ≡ p.sku)
          × ((f p).rental_price_tiers ≡ p.rental_price_tiers))
    → IsStocked w
    → IsStocked (set_products (map f w.catalog.products) w)
map_products_keeps f w keeps (skus, prices, serials) = (
  same-IsUnique product_id_of product_sku_of f w.catalog.products
      (λ p. let (i, s, _) = keeps p in (i, s)) skus,
  map-HasPrices f w.catalog.products
      (λ p one n. subst (λ tiers. count (is_live_for n) tiers ≤ 1) (sym (keeps p).2) (one n))
      prices,
  serials,
)

pub emit_keeps :
    (reason : ChangeReason) (products units : List ℕ) (w : World)
    → IsStocked w
    → IsStocked (emit_changed reason products units w)
unfolding emit_changed
emit_keeps reason products units w s = s

pub emit_each_keeps : (ids : List ℕ) (w : World) → IsStocked w → IsStocked (emit_each ids w)
emit_each_keeps [] w s = s
emit_each_keeps (id ∷ ids) w s = emit_each_keeps ids _ (emit_keeps _ _ _ w s)

-- A write of a unit that gives it a serial number of its own, or keeps the one it has.
pub map_units_keeps :
    (text : String) (id : ℕ) (f : AssetUnit → AssetUnit) (w : World)
    → ((u : AssetUnit) → Rewrites unit_id_of serial_of text id u (f u))
    → IsOwned unit_id_of serial_of text (some id) w.catalog.asset_units
    → IsStocked w
    → IsStocked (set_units (map f w.catalog.asset_units) w)
map_units_keeps text id f w write own (skus, prices, serials) = (
  skus,
  prices,
  map-IsUnique unit_id_of serial_of text id f w.catalog.asset_units write own serials,
)

pub same_units_keeps :
    (f : AssetUnit → AssetUnit) (w : World)
    → ((u : AssetUnit) → ((f u).id ≡ u.id) × ((f u).serial_number ≡ u.serial_number))
    → IsStocked w
    → IsStocked (set_units (map f w.catalog.asset_units) w)
same_units_keeps f w keeps (skus, prices, serials) =
    (skus, prices, same-IsUnique unit_id_of serial_of f w.catalog.asset_units keeps serials)

module _ (normalize : String → String) where
  pub insert_unit_keeps :
      (dto : CreateAssetUnit) (product : Product) (w : World) {u : Unit {0}}
      → check_unique unit_id_of serial_of dto.serial_number none w.catalog.asset_units ≡ ok u
      → IsStocked w
      → IsStocked (insert_unit normalize dto product w)
  unfolding insert_unit new_unit
  insert_unit_keeps dto product w free (skus, prices, serials) = (
    skus,
    prices,
    insert-IsUnique unit_id_of serial_of (new_unit normalize dto product w.next_id)
        w.catalog.asset_units serials
        (check_unique-IsOwned unit_id_of serial_of dto.serial_number none w.catalog.asset_units
          free),
  )

  pub update_unit_keeps :
      (dto : UpdateAssetUnit) (existing : AssetUnit) (product : Option Product) (w : World)
      {u : Unit {0}}
      → check_unique unit_id_of serial_of
          (some_or dto.serial_number existing.serial_number)
          (some existing.id)
          w.catalog.asset_units
        ≡ ok u
      → IsStocked w
      → IsStocked (update_unit_row existing.id (updated_unit normalize dto existing product) w)
  unfolding updated_unit
  update_unit_keeps dto existing product w free s =
      let serial = some_or dto.serial_number existing.serial_number in
      let write = updated_unit normalize dto existing product in
      map_units_keeps serial existing.id (λ u. if u.id == existing.id then write u else u) w
        (λ u.
          at_id unit_id_of serial_of serial existing.id write u
            (refl, some_or-cases dto.serial_number u.serial_number existing.serial_number))
        (check_unique-IsOwned unit_id_of serial_of serial (some existing.id) w.catalog.asset_units
          free)
        s
