-- ===== src/Examples/Checks.antt =====
-- The availability check and the availability pages at concrete inputs.
use rental_be_nest.Prelude.{
  ◌≡◌, ◌≤◌, ◌↔◌, refl, true, false, none, some, [], ◌∷◌, includes, unique, arith,
}
use rental_be_nest.Result.{ok}
use rental_be_nest.Exec.{◌>>=◌}
use rental_be_nest.Catalog.{is_assignable}
use rental_be_nest.Catalog.Queries.{
  get_active_products_for_rental, get_assignable_asset_units, count_assignable_asset_units,
}
use rental_be_nest.Store.Hours.{assert_rental_time_within_business_hours}
use rental_be_nest.Store.Hours.Clock.{to_minutes}
use rental_be_nest.Store.Closures.{assert_no_closure_overlap}
use rental_be_nest.Orders.{NormalizedItem, status_in}
use rental_be_nest.Orders.Booking.{
  get_booked_asset_unit_ids, get_booked_quantity, is_booked, find_order, blocking_order_where,
}
use rental_be_nest.Orders.Availability.{
  EvaluateParams, Availability, evaluate_availability, add_minutes, unavailable_items_of,
  requested_quantity, short_products, assignable_count, booked_quantity,
}
use rental_be_nest.Orders.Availability.Checked.{opening_hours}
use rental_be_nest.Orders.Availability.Served.{CanServe, unavailable_items-nil_iff}
use rental_be_nest.Orders.Availability.Accepted.{IsAccepted, evaluate_availability-IsAccepted}
use rental_be_nest.Orders.Views.Products.{get_availability_counts, inventory_of}
use rental_be_nest.Orders.Views.Assets.{AssetAvailabilityState, asset_view, booked_rows}
use rental_be_nest.Orders.Views.Agreement.{inventory_of-short_products, asset_view-available_iff}
use rental_be_nest.Examples.Data.{clock, catalog, unit, drafted}

abbrev asked : NormalizedItem
asked = record { id = none; product_id = 10; asset_unit_id = some 21; note = none }

abbrev params : EvaluateParams
params = record {
  start_date = 3600000;
  end_date = 10800000;
  items = asked ∷ [];
  exclude_order_id = none;
  rental_policy = none;
  turnaround_minutes = some 30;
}

abbrev said_yes : Availability
said_yes = record {
  is_available = true;
  start_date = 3600000;
  end_date = 10800000;
  blocked_end_date = 12600000;
  turnaround_minutes = 30;
  unavailable_items = [];
}

evaluated : (evaluate_availability clock params drafted).0 ≡ ok said_yes
unfolding evaluate_availability ◌>>=◌ assert_rental_time_within_business_hours to_minutes
    assert_no_closure_overlap get_active_products_for_rental get_assignable_asset_units
    count_assignable_asset_units get_booked_asset_unit_ids get_booked_quantity is_booked find_order
    blocking_order_where status_in unique add_minutes
evaluated = refl

evaluate_availability-IsAccepted_example :
    IsAccepted clock
      (opening_hours drafted)
      drafted.catalog
      drafted.rentals
      drafted.closures
      params
      said_yes
evaluate_availability-IsAccepted_example =
    evaluate_availability-IsAccepted clock params drafted {a = said_yes} evaluated refl

unavailable_items-nil_iff_example :
    (unavailable_items_of catalog drafted.rentals params 30 12600000 ≡ [])
    ↔ CanServe catalog drafted.rentals params 12600000
unavailable_items-nil_iff_example =
    unavailable_items-nil_iff catalog drafted.rentals params 30 12600000

inventory_of-short_products_example :
    (short_products
        (assignable_count catalog drafted.rentals params 30 12600000)
        (booked_quantity catalog drafted.rentals params 30 12600000)
        (requested_quantity params.items)
        (10 ∷ [])
      ≡ [])
    ↔ (requested_quantity params.items 10
        ≤ (inventory_of
            (get_availability_counts catalog drafted.rentals (10 ∷ []) 3600000 12600000 none)
            10).available)
unfolding requested_quantity unique
inventory_of-short_products_example =
    inventory_of-short_products catalog drafted.rentals (10 ∷ []) params 30 12600000 10 refl refl
      (omega arith)

asset_view-available_iff_example :
    ((asset_view
        (booked_rows drafted.rentals.orders drafted.rentals.items
          (20 ∷ 21 ∷ [])
          3600000
          12600000
          none)
        (unit 21)).availability
      ≡ AssetAvailabilityState.available)
    ↔ ((is_assignable (unit 21) ≡ true)
        × (includes
              (get_booked_asset_unit_ids drafted.rentals (20 ∷ 21 ∷ []) 3600000 12600000 none)
              21
            ≡ false))
asset_view-available_iff_example =
    asset_view-available_iff drafted.rentals (20 ∷ 21 ∷ []) 3600000 12600000 none (unit 21) refl
