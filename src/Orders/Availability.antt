-- ===== src/Orders/Availability.antt =====
-- `evaluateAvailability` of src/modules/rental-orders/services/rental-order-availability.service.ts
-- with what it calls.
pub mod Report
pub mod Served
pub mod Checked
pub mod Frames
pub mod Accepted
pub mod Request
use rental_be_nest.Prelude.{
  ℕ, ◌+◌, ◌-◌, ◌*◌, Bool, true, false, not, ◌&&◌, Option, none, some, List, [], ◌∷◌, ◌++◌, map,
  keep, filter_map, count, every, includes, unique, length, map_get, replicate, ltb, leb, ◌==◌,
  ◌or_else◌, if◌then◌else◌,
}
use rental_be_nest.Result
use rental_be_nest.Result.{
  Result, ok, err, bad_request, require, rental_order_time_invalid, rental_order_asset_unit_invalid,
  rental_order_product_invalid, UnavailableItem, already_booked, no_assignable_units,
  not_enough_units,
}
use rental_be_nest.Exec.{Exec, pure, reads, lift, ◌>>=◌, ◌>>◌}
use rental_be_nest.World.{World}
use rental_be_nest.Catalog.{Catalog, Product, AssetUnit}
use rental_be_nest.Catalog.Queries.{
  get_active_products_for_rental, get_assignable_asset_units, count_assignable_asset_units,
}
use rental_be_nest.Store.Policy.{RentalPolicy, get_default_policy_for_order}
use rental_be_nest.Store.Hours.{WallClock, assert_rental_time_within_business_hours}
use rental_be_nest.Store.Closures.{assert_no_closure_overlap, is_none}
use rental_be_nest.Orders.Tables.{NormalizedItem, Rentals}
use rental_be_nest.Orders.Booking.{get_booked_asset_unit_ids, get_booked_quantity}

pub record EvaluateParams : Type 0 where
  pub start_date : ℕ
  pub end_date : ℕ
  pub items : List NormalizedItem
  pub exclude_order_id : Option ℕ
  pub rental_policy : Option RentalPolicy
  pub turnaround_minutes : Option ℕ

-- `RentalOrderAvailabilityOutDto`
pub record Availability : Type 0 where
  pub is_available : Bool
  pub start_date : ℕ
  pub end_date : ℕ
  pub blocked_end_date : ℕ
  pub turnaround_minutes : ℕ
  pub unavailable_items : List UnavailableItem

unfoldable pub add_minutes : ℕ → ℕ → ℕ
add_minutes date minutes = date + minutes * 60 * 1000

unfoldable pub validate_rental_time : ℕ → ℕ → Result (Unit {0})
validate_rental_time start_date end_date =
    require (not (leb end_date start_date)) (bad_request rental_order_time_invalid)

-- The loop of `validateRequestedItems`: whether no asset unit is named twice.
unfoldable pub are_distinct : List ℕ → List NormalizedItem → Bool
are_distinct seen [] = true
are_distinct seen (item ∷ items) = elim item.asset_unit_id [
  | none ↦ are_distinct seen items
  | some a ↦ not (includes seen a) && are_distinct (a ∷ seen) items
]

unfoldable pub validate_requested_items : List NormalizedItem → Result (Unit {0})
unfolding are_distinct
validate_requested_items items =
    require (are_distinct [] items) (bad_request rental_order_asset_unit_invalid)

abbrev pub asset_unit_ids_of : List NormalizedItem → List ℕ
asset_unit_ids_of items = filter_map (λ (i : NormalizedItem). i.asset_unit_id) items

abbrev pub product_ids_of : List NormalizedItem → List ℕ
product_ids_of items = unique (map (λ (i : NormalizedItem). i.product_id) items)

-- An item's asset unit, if it names one, is assignable and of the item's product.
abbrev pub unit_is_of : ℕ → Option AssetUnit → Bool
unit_is_of product_id none = false
unit_is_of product_id (some u) = u.product_id == product_id

unfoldable pub asset_unit_fits : List AssetUnit → NormalizedItem → Bool
asset_unit_fits units item = elim item.asset_unit_id [
  | none ↦ true
  | some a ↦ unit_is_of item.product_id (map_get (λ (u : AssetUnit). u.id) units a)
]

-- The first loop over `unavailableItems`.
unfoldable pub booked_items : List ℕ → List NormalizedItem → List UnavailableItem
booked_items booked [] = []
booked_items booked (item ∷ items) =
    let rest = booked_items booked items in
    elim item.asset_unit_id [
      | none ↦ rest
      | some a ↦
          if includes booked a
          then record {
            product_id = item.product_id;
            asset_unit_id = some a;
            reason = already_booked;
          }
            ∷ rest
          else rest
    ]

-- `countRequestedItemsByProduct`, at one of its keys
unfoldable pub requested_quantity : List NormalizedItem → ℕ → ℕ
requested_quantity items product_id =
    count (λ (i : NormalizedItem). i.product_id == product_id) items

-- The second loop, over the products of the request in their order.
unfoldable pub short_products :
    (assignable booked requested : ℕ → ℕ) → List ℕ → List UnavailableItem
short_products assignable booked requested [] = []
short_products assignable booked requested (p ∷ ps) =
    let rest = short_products assignable booked requested ps in
    if assignable p == 0
    then record { product_id = p; asset_unit_id = none; reason = no_assignable_units } ∷ rest
    else (if ltb (assignable p) (booked p + requested p)
        then record { product_id = p; asset_unit_id = none; reason = not_enough_units } ∷ rest
        else rest)

abbrev pub is_empty {ℓ} : {A : Type ℓ} → List A → Bool
is_empty [] = true
is_empty (x ∷ xs) = false

abbrev pub has_product : List Product → ℕ → Bool
has_product products id = not (is_none (map_get (λ (p : Product). p.id) products id))

-- The body of `evaluateAvailability` from the queries on: they read the tables and write nothing.
module _ (catalog : Catalog) (rentals : Rentals) (p : EvaluateParams)
    (turnaround blocked_end_date : ℕ) where
  abbrev pub booked_ids : List ℕ
  booked_ids =
      get_booked_asset_unit_ids rentals (asset_unit_ids_of p.items) p.start_date blocked_end_date
        p.exclude_order_id

  abbrev pub assignable_count : ℕ → ℕ
  assignable_count = count_assignable_asset_units (product_ids_of p.items) catalog.asset_units

  abbrev pub booked_quantity : ℕ → ℕ
  booked_quantity =
      get_booked_quantity rentals (product_ids_of p.items) p.start_date blocked_end_date
        p.exclude_order_id

  unfoldable pub unavailable_items_of : List UnavailableItem
  unfolding booked_items short_products requested_quantity
  unavailable_items_of =
      booked_items booked_ids p.items
      ++ short_products assignable_count booked_quantity (requested_quantity p.items)
          (product_ids_of p.items)

  abbrev pub report_of : List UnavailableItem → Availability
  report_of unavailable = record {
    is_available = is_empty unavailable;
    start_date = p.start_date;
    end_date = p.end_date;
    blocked_end_date = blocked_end_date;
    turnaround_minutes = turnaround;
    unavailable_items = unavailable;
  }

  abbrev pub products : List Product
  products = get_active_products_for_rental (product_ids_of p.items) catalog.products

  abbrev pub asset_units : List AssetUnit
  asset_units = get_assignable_asset_units (asset_unit_ids_of p.items) catalog.asset_units

  -- The four tests that throw, in their order.
  abbrev pub all_products_found : Bool
  all_products_found = length products == length (product_ids_of p.items)

  abbrev pub all_units_found : Bool
  all_units_found = length asset_units == length (asset_unit_ids_of p.items)

  abbrev pub all_units_fit : Bool
  all_units_fit = every (asset_unit_fits asset_units) p.items

  abbrev pub all_products_listed : Bool
  all_products_listed = every (has_product products) (product_ids_of p.items)

  unfoldable pub availability_report : Result Availability
  unfolding asset_unit_fits unavailable_items_of
  availability_report =
      Result.◌>>◌ (require all_products_found (bad_request rental_order_product_invalid)) (
        Result.◌>>◌ (require all_units_found (bad_request rental_order_asset_unit_invalid)) (
          Result.◌>>◌ (require all_units_fit (bad_request rental_order_asset_unit_invalid)) (
            Result.◌>>◌ (require all_products_listed (bad_request rental_order_product_invalid))
              (ok (report_of unavailable_items_of)))))

-- The policy is asked for only if the caller gives neither minutes nor a policy.
abbrev pub policy_minutes : Option RentalPolicy → Option ℕ
policy_minutes none = none
policy_minutes (some policy) = some policy.turnaround_minutes

unfoldable pub read_policy : Exec World RentalPolicy
read_policy w =
    let (r, s) = get_default_policy_for_order w.redis w.policy in (r, record w { policy = s })

abbrev pub first_given : Option ℕ → Option ℕ → Option ℕ
first_given none b = b
first_given (some a) b = some a

unfoldable pub effective_turnaround : EvaluateParams → Exec World ℕ
unfolding read_policy
effective_turnaround p = elim (first_given p.turnaround_minutes (policy_minutes p.rental_policy)) [
  | some minutes ↦ pure minutes
  | none ↦ do policy ← read_policy; pure policy.turnaround_minutes
]

module _ (clock : WallClock) where
  unfoldable pub assert_open : ℕ → ℕ → Exec World (Unit {0})
  assert_open start_date end_date w =
      let (r, s) =
        assert_rental_time_within_business_hours clock w.redis w.now start_date end_date w.hours in
      (r, record w { hours = s })

  unfoldable pub evaluate_availability : EvaluateParams → Exec World Availability
  unfolding validate_rental_time validate_requested_items effective_turnaround assert_open
      availability_report
  evaluate_availability p = do
    lift (validate_rental_time p.start_date p.end_date)
    lift (validate_requested_items p.items)
    minutes ← effective_turnaround p
    let blocked_end_date = add_minutes p.end_date minutes
    assert_open p.start_date p.end_date
    reads (λ w. assert_no_closure_overlap p.start_date p.end_date w.closures)
    reads (λ w. availability_report w.catalog w.rentals p minutes blocked_end_date)
