-- ===== src/Orders/Views.antt =====
-- What the availability pages show: `getAvailabilityProducts`, `getAvailabilityAssets` and
-- `getAvailabilityTimeline` of
-- src/modules/rental-orders/services/rental-order-availability.service.ts.
pub mod Paging
pub mod Products
pub mod Assets
pub mod Timeline
pub mod Agreement
use rental_be_nest.Prelude.{
  ℕ, String, Bool, true, false, ◌&&◌, ◌||◌, Option, none, some, List, [], ◌∷◌, codes, ◌==◌,
}
use rental_be_nest.Exec.{Exec, pure, reads, lift, ◌>>=◌, ◌>>◌}
use rental_be_nest.World.{World}
use rental_be_nest.Catalog.{Product, AssetUnit}
use rental_be_nest.Store.Hours.{WallClock}
use rental_be_nest.Store.Closures.{assert_no_closure_overlap}
use rental_be_nest.Orders.Availability.{validate_rental_time, add_minutes, read_policy, assert_open}

pub data AvailabilityFilter : Type 0 where
  all available unavailable : AvailabilityFilter

-- `GetAvailabilityBaseDto`, with what it extends
pub record AvailabilityQuery : Type 0 where
  pub page : ℕ
  pub per_page : ℕ
  pub search : String
  pub start_date : ℕ
  pub end_date : ℕ
  pub availability : AvailabilityFilter
  pub exclude_order_id : Option ℕ

-- What the views take from their surroundings: the clock, the normalisation of a search, and the
-- order that the database's collation gives to the rows of a query.
pub record Surroundings : Type 0 where
  pub clock : WallClock
  pub normalize_search_text : String → String
  pub products_by_name : Product → Product → Bool
  pub units_by_serial : AssetUnit → AssetUnit → Bool
  pub units_by_product : AssetUnit → AssetUnit → Bool

-- `{ contains: text }`, of which the empty text leaves every row
abbrev starts_with : List ℕ → List ℕ → Bool
starts_with [] text = true
starts_with (p ∷ ps) [] = false
starts_with (p ∷ ps) (c ∷ cs) = p == c && starts_with ps cs

abbrev contains_codes : List ℕ → List ℕ → Bool
contains_codes text [] = starts_with text []
contains_codes text (c ∷ cs) = starts_with text (c ∷ cs) || contains_codes text cs

unfoldable pub contains_text : String → String → Bool
contains_text text search_text = contains_codes (codes text) (codes search_text)

-- The period that a window blocks.
pub record Window : Type 0 where
  pub blocked_end_date : ℕ
  pub turnaround_minutes : ℕ

module _ (clock : WallClock) where
  unfoldable pub validate_availability_window : ℕ → ℕ → Exec World Window
  unfolding validate_rental_time read_policy assert_open add_minutes
  validate_availability_window start_date end_date = do
    lift (validate_rental_time start_date end_date)
    policy ← read_policy
    assert_open clock start_date end_date
    reads (λ w. assert_no_closure_overlap start_date end_date w.closures)
    pure record {
      blocked_end_date = add_minutes end_date policy.turnaround_minutes;
      turnaround_minutes = policy.turnaround_minutes;
    }
