-- ===== src/Catalog/Queries.antt =====
-- What orders ask of products and asset units: `getActiveProductsForRental` of
-- src/modules/products/products.service.ts, and `getAssignableAssetUnits` and
-- `countAssignableAssetUnitsByProduct` of src/modules/asset-units/asset-units.service.ts.
-- With no ids asked for the source answers without a query, with the same empty answer.
pub mod Found
use rental_be_nest.Prelude.{
  ℕ, Bool, ◌&&◌, ◌||◌, List, map, keep, count, includes, unique, ltb, leb, sort_by, ◌==◌,
  if◌then◌else◌,
}
use rental_be_nest.Catalog.Tables.{PriceTier, Product, AssetUnit, is_null, is_assignable}

-- `orderBy: [{ sortOrder: 'asc' }, { minDays: 'asc' }]`
abbrev pub by_sort_order : PriceTier → PriceTier → Bool
by_sort_order a b =
    ltb a.sort_order b.sort_order || (a.sort_order == b.sort_order && leb a.min_days b.min_days)

abbrev pub with_live_tiers : Product → Product
with_live_tiers p = record p {
  rental_price_tiers =
      sort_by by_sort_order (keep (λ t. is_null t.deleted_at) p.rental_price_tiers);
}

abbrev pub is_active_among : List ℕ → Product → Bool
is_active_among ids p = includes ids p.id && p.is_active && is_null p.deleted_at

unfoldable pub get_active_products_for_rental : List ℕ → List Product → List Product
get_active_products_for_rental product_ids products =
    map with_live_tiers (keep (is_active_among (unique product_ids)) products)

unfoldable pub get_assignable_asset_units : List ℕ → List AssetUnit → List AssetUnit
unfolding is_assignable
get_assignable_asset_units asset_unit_ids units =
    keep (λ u. includes (unique asset_unit_ids) u.id && is_assignable u) units

-- The count of a product's group in `groupBy`, 0 where there is no group.
unfoldable pub count_assignable_asset_units : List ℕ → List AssetUnit → ℕ → ℕ
unfolding is_assignable
count_assignable_asset_units product_ids units product_id =
    if includes (unique product_ids) product_id
    then count (λ u. u.product_id == product_id && is_assignable u) units
    else 0
