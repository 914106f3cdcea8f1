-- ===== src/Orders/Views/Assets.antt =====
-- `getAvailabilityAssets`.
use rental_be_nest.Prelude.{
  ℕ, String, Bool, true, false, not, ◌&&◌, Option, none, some, List, [], ◌∷◌, map, keep, find,
  length, ltb, ◌==◌, if◌then◌else◌, sort_by, max_sub_zero, is_some_eq,
}
use rental_be_nest.Result.{Result, ok, or_fail, bad_request, rental_order_product_invalid}
use rental_be_nest.Exec.{Exec, pure, reads, ◌>>=◌}
use rental_be_nest.World.{World}
use rental_be_nest.Catalog.{Catalog, AssetUnit, AssetStatus, AssetCondition, Product, is_null}
use rental_be_nest.Orders.Tables.{Rentals, RentalOrder, OrderItem}
use rental_be_nest.Orders.Booking.{find_order, is_among, blocking_order_where}
use rental_be_nest.Orders.Views.Paging.{Pagination, page_of, build_pagination}
use rental_be_nest.Orders.Views.Products.{get_availability_counts}
use rental_be_nest.Orders.Views.{
  AvailabilityFilter, AvailabilityQuery, Surroundings, contains_text, validate_availability_window,
}

pub data AssetAvailabilityState : Type 0 where
  available booked unassignable : AssetAvailabilityState

pub data AssetAvailabilityReason : Type 0 where
  booked inactive maintenance retired lost : AssetAvailabilityReason

-- A row of the query for booked items: the unit and its order.
pub record BookedRow : Type 0 where
  pub asset_unit_id : Option ℕ
  pub order : RentalOrder

abbrev pub booked_row :
    (RentalOrder → Bool) → Option ℕ → Option RentalOrder → List BookedRow → List BookedRow
booked_row p a none rest = rest
booked_row p a (some o) rest = if p o then record { asset_unit_id = a; order = o } ∷ rest else rest

unfoldable pub booked_rows :
    List RentalOrder
    → List OrderItem
    → List ℕ
    → (start_date blocked_end_date : ℕ) → Option ℕ
    → List BookedRow
booked_rows orders [] ids start_date blocked_end_date exclude = []
booked_rows orders (i ∷ items) ids start_date blocked_end_date exclude =
    let rest = booked_rows orders items ids start_date blocked_end_date exclude in
    if is_null i.deleted_at && is_among ids i.asset_unit_id
    then booked_row (blocking_order_where start_date blocked_end_date exclude) i.asset_unit_id
        (find_order i.order_id orders) rest
    else rest

-- The entry of a unit in `conflictEndByAsset`: the latest end of its rows.
abbrev pub later_end : Option ℕ → ℕ → Option ℕ
later_end none e = some e
later_end (some current) e = if ltb current e then some e else some current

unfoldable pub conflict_end : Option ℕ → List BookedRow → ℕ → Option ℕ
conflict_end current [] a = current
conflict_end current (r ∷ rows) a =
    conflict_end
      (if is_some_eq r.asset_unit_id a then later_end current r.order.blocked_end_date else current)
      rows a

-- The state of a unit and its reason.
pub record Classified : Type 0 where
  pub availability : AssetAvailabilityState
  pub reason_code : Option AssetAvailabilityReason

abbrev pub unassignable_for : AssetAvailabilityReason → Classified
unassignable_for reason = record {
  availability = AssetAvailabilityState.unassignable;
  reason_code = some reason;
}

abbrev pub by_conflict : Option ℕ → Classified
by_conflict none = record { availability = AssetAvailabilityState.available; reason_code = none }
by_conflict (some e) = record {
  availability = AssetAvailabilityState.booked;
  reason_code = some AssetAvailabilityReason.booked;
}

abbrev pub by_condition : AssetCondition → Option ℕ → Classified
by_condition AssetCondition.lost conflict = unassignable_for AssetAvailabilityReason.lost
by_condition AssetCondition.brand_new conflict = by_conflict conflict
by_condition AssetCondition.good conflict = by_conflict conflict
by_condition AssetCondition.fair conflict = by_conflict conflict
by_condition AssetCondition.damaged conflict = by_conflict conflict

abbrev pub by_status : AssetStatus → AssetCondition → Option ℕ → Classified
by_status AssetStatus.maintenance c conflict = unassignable_for AssetAvailabilityReason.maintenance
by_status AssetStatus.retired c conflict = unassignable_for AssetAvailabilityReason.retired
by_status AssetStatus.lost c conflict = unassignable_for AssetAvailabilityReason.lost
by_status AssetStatus.available c conflict = by_condition c conflict
by_status AssetStatus.reserved c conflict = by_condition c conflict
by_status AssetStatus.rented c conflict = by_condition c conflict

unfoldable pub classify : AssetUnit → Option ℕ → Classified
classify u conflict =
    if not u.is_active
    then unassignable_for AssetAvailabilityReason.inactive
    else by_status u.status u.condition conflict

pub record AssetView : Type 0 where
  pub asset_unit_id : ℕ
  pub serial_number : String
  pub status : AssetStatus
  pub condition : AssetCondition
  pub availability : AssetAvailabilityState
  pub reason_code : Option AssetAvailabilityReason
  pub conflict_blocked_end_date : Option ℕ

unfoldable pub asset_view : List BookedRow → AssetUnit → AssetView
unfolding classify conflict_end
asset_view rows u =
    let conflict = conflict_end none rows u.id in
    let classified = classify u conflict in
    record {
      asset_unit_id = u.id;
      serial_number = u.serial_number;
      status = u.status;
      condition = u.condition;
      availability = classified.availability;
      reason_code = classified.reason_code;
      conflict_blocked_end_date = conflict;
    }

abbrev pub is_available_state : AssetAvailabilityState → Bool
is_available_state AssetAvailabilityState.available = true
is_available_state AssetAvailabilityState.booked = false
is_available_state AssetAvailabilityState.unassignable = false

abbrev pub asset_passes : AvailabilityFilter → AssetView → Bool
asset_passes AvailabilityFilter.all v = true
asset_passes AvailabilityFilter.available v = is_available_state v.availability
asset_passes AvailabilityFilter.unavailable v = not (is_available_state v.availability)

pub record AssetsPage : Type 0 where
  pub items : List AssetView
  pub pagination : Pagination
  pub product_id : ℕ
  pub available_quantity : ℕ
  pub selection_limit : ℕ
  pub blocked_end_date : ℕ

module _ (around : Surroundings) (q : AvailabilityQuery) (product_id : ℕ) where
  unfoldable pub find_listed_product : World → Result Product
  find_listed_product w =
      or_fail
        (find (λ (p : Product). p.id == product_id && is_null p.deleted_at && p.is_active)
          w.catalog.products)
        (bad_request rental_order_product_invalid)

  unfoldable pub listed_units : Catalog → List AssetUnit
  unfolding contains_text
  listed_units catalog = sort_by around.units_by_serial (
      keep
        (λ (u : AssetUnit).
          u.product_id == product_id
          && is_null u.deleted_at
          && u.is_active
          && contains_text (around.normalize_search_text q.search) u.search_text)
        catalog.asset_units)

  unfoldable pub asset_views : Catalog → Rentals → ℕ → List AssetView
  unfolding listed_units booked_rows asset_view
  asset_views catalog rentals blocked_end_date =
      let units = listed_units catalog in
      let rows =
        booked_rows rentals.orders rentals.items (map (λ (u : AssetUnit). u.id) units) q.start_date
          blocked_end_date q.exclude_order_id in
      keep (asset_passes q.availability) (map (asset_view rows) units)

  unfoldable pub available_quantity : Catalog → Rentals → ℕ → ℕ
  unfolding get_availability_counts
  available_quantity catalog rentals blocked_end_date =
      let counts =
        get_availability_counts catalog rentals (product_id ∷ []) q.start_date blocked_end_date
          q.exclude_order_id in
      max_sub_zero (counts.assignable product_id) (counts.booked product_id)

  unfoldable pub get_availability_assets : Exec World AssetsPage
  unfolding validate_availability_window find_listed_product asset_views available_quantity page_of
      build_pagination
  get_availability_assets = do
    window ← validate_availability_window around.clock q.start_date q.end_date
    product ← reads find_listed_product
    views ← reads (λ w. ok (asset_views w.catalog w.rentals window.blocked_end_date))
    quantity ← reads (λ w. ok (available_quantity w.catalog w.rentals window.blocked_end_date))
    let items = page_of q.page q.per_page views
    pure record {
      items = items;
      pagination = build_pagination q.page q.per_page (length views) (length items);
      product_id = product_id;
      available_quantity = quantity;
      selection_limit = quantity;
      blocked_end_date = window.blocked_end_date;
    }
