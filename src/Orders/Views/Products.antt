-- ===== src/Orders/Views/Products.antt =====
-- `getAvailabilityProducts` and `getAvailabilityCounts`.
use rental_be_nest.Prelude.{
  ℕ, String, Bool, true, ◌&&◌, Option, List, map, keep, length, ltb, leb, ◌==◌, ◌||◌, if◌then◌else◌,
  sort_by, max_sub_zero,
}
use rental_be_nest.Result.{ok}
use rental_be_nest.Exec.{Exec, pure, reads, ◌>>=◌}
use rental_be_nest.World.{World}
use rental_be_nest.Catalog.{Catalog, PriceTier, Product, is_null}
use rental_be_nest.Catalog.Queries.{count_assignable_asset_units}
use rental_be_nest.Orders.Tables.{Rentals}
use rental_be_nest.Orders.Booking.{get_booked_quantity}
use rental_be_nest.Orders.Views.Paging.{Pagination, page_of, build_pagination}
use rental_be_nest.Orders.Views.{
  AvailabilityFilter, AvailabilityQuery, Surroundings, contains_text, validate_availability_window,
}

pub data ProductAvailabilityState : Type 0 where
  available low_stock unavailable : ProductAvailabilityState

pub record Inventory : Type 0 where
  pub total : ℕ
  pub reserved : ℕ
  pub available : ℕ

pub record ProductView : Type 0 where
  pub product_id : ℕ
  pub name : String
  pub sku : String
  pub daily_price : ℕ
  pub half_day_price : ℕ
  pub rental_price_tiers : List PriceTier
  pub inventory : Inventory
  pub availability_state : ProductAvailabilityState

-- The two maps of `getAvailabilityCounts` that the views read.
pub record Counts : Type 0 where
  pub assignable : ℕ → ℕ
  pub booked : ℕ → ℕ

unfoldable pub get_availability_counts :
    Catalog → Rentals → List ℕ → (start_date blocked_end_date : ℕ) → Option ℕ → Counts
get_availability_counts catalog rentals product_ids start_date blocked_end_date exclude = record {
  assignable = count_assignable_asset_units product_ids catalog.asset_units;
  booked = get_booked_quantity rentals product_ids start_date blocked_end_date exclude;
}

unfoldable pub inventory_of : Counts → ℕ → Inventory
inventory_of counts id = record {
  total = counts.assignable id;
  reserved = counts.booked id;
  available = max_sub_zero (counts.assignable id) (counts.booked id);
}

unfoldable pub product_state : ℕ → ProductAvailabilityState
product_state units =
    if units == 0
    then ProductAvailabilityState.unavailable
    else (if leb units 2
        then ProductAvailabilityState.low_stock
        else ProductAvailabilityState.available)

-- `orderBy: [{ minDays: 'asc' }, { sortOrder: 'asc' }, { id: 'asc' }]`
abbrev by_days_order : PriceTier → PriceTier → Bool
by_days_order a b =
    ltb a.min_days b.min_days
    || (a.min_days == b.min_days
        && (ltb a.sort_order b.sort_order || (a.sort_order == b.sort_order && leb a.id b.id)))

unfoldable pub product_view : Counts → Product → ProductView
unfolding inventory_of product_state
product_view counts p =
    let inventory = inventory_of counts p.id in
    record {
      product_id = p.id;
      name = p.name;
      sku = p.sku;
      daily_price = p.daily_price;
      half_day_price = p.half_day_price;
      rental_price_tiers =
          sort_by by_days_order (keep (λ t. is_null t.deleted_at) p.rental_price_tiers);
      inventory = inventory;
      availability_state = product_state inventory.available;
    }

abbrev pub product_passes : AvailabilityFilter → ProductView → Bool
product_passes AvailabilityFilter.all v = true
product_passes AvailabilityFilter.available v = ltb 0 v.inventory.available
product_passes AvailabilityFilter.unavailable v = v.inventory.available == 0

pub record ProductsPage : Type 0 where
  pub items : List ProductView
  pub pagination : Pagination
  pub start_date : ℕ
  pub end_date : ℕ
  pub blocked_end_date : ℕ
  pub turnaround_minutes : ℕ

module _ (around : Surroundings) (q : AvailabilityQuery) where
  unfoldable pub listed_products : Catalog → List Product
  unfolding contains_text
  listed_products catalog = sort_by around.products_by_name (
      keep
        (λ (p : Product).
          is_null p.deleted_at
          && p.is_active
          && contains_text (around.normalize_search_text q.search) p.search_text)
        catalog.products)

  unfoldable pub product_views : Catalog → Rentals → ℕ → List ProductView
  unfolding product_view get_availability_counts
  product_views catalog rentals blocked_end_date =
      let products = listed_products catalog in
      let counts =
        get_availability_counts catalog rentals (map (λ (p : Product). p.id) products) q.start_date
          blocked_end_date q.exclude_order_id in
      keep (product_passes q.availability) (map (product_view counts) products)

  unfoldable pub get_availability_products : Exec World ProductsPage
  unfolding validate_availability_window listed_products product_views page_of build_pagination
  get_availability_products = do
    window ← validate_availability_window around.clock q.start_date q.end_date
    views ← reads (λ w. ok (product_views w.catalog w.rentals window.blocked_end_date))
    let items = page_of q.page q.per_page views
    pure record {
      items = items;
      pagination = build_pagination q.page q.per_page (length views) (length items);
      start_date = q.start_date;
      end_date = q.end_date;
      blocked_end_date = window.blocked_end_date;
      turnaround_minutes = window.turnaround_minutes;
    }
