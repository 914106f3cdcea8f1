-- ===== src/Orders/Availability/Request.antt =====
-- `checkRentalOrderAvailability` and the normalisation of its items, of
-- src/modules/rental-orders/services/rental-order-availability.service.ts.
use rental_be_nest.Prelude.{
  ℕ, ◌-◌, not, Option, none, some, List, [], ◌∷◌, ◌++◌, map, length, replicate, ltb, ◌or_else◌,
}
use rental_be_nest.Result
use rental_be_nest.Result.{Result, ok, bad_request, require, rental_order_asset_unit_invalid}
use rental_be_nest.Exec.{Exec, lift, ◌>>=◌}
use rental_be_nest.World.{World}
use rental_be_nest.Store.Hours.{WallClock}
use rental_be_nest.Orders.Tables.{NormalizedItem}
use rental_be_nest.Orders.Availability.{Availability, evaluate_availability}

-- `CheckRentalOrderAvailabilityItemDto`
pub record CheckItem : Type 0 where
  pub product_id : ℕ
  pub quantity : ℕ
  pub asset_unit_ids : Option (List ℕ)

-- `normalizeItems` of the availability service: an item of each named unit, then unnamed ones up to
-- the quantity.
abbrev unnamed : ℕ → NormalizedItem
unnamed product_id = record {
  id = none;
  product_id = product_id;
  asset_unit_id = none;
  note = none;
}

abbrev named : ℕ → ℕ → NormalizedItem
named product_id a = record {
  id = none;
  product_id = product_id;
  asset_unit_id = some a;
  note = none;
}

unfoldable pub normalize_items : List CheckItem → Result (List NormalizedItem)
normalize_items [] = ok []
normalize_items (item ∷ items) =
    let ids = item.asset_unit_ids or_else [] in
    Result.◌>>◌
      (require (not (ltb item.quantity (length ids))) (bad_request rental_order_asset_unit_invalid))
      (Result.◌>>=◌ (normalize_items items) (λ rest. ok (
        map (named item.product_id) ids
        ++ (replicate (item.quantity - length ids) (unnamed item.product_id) ++ rest))))

unfoldable pub check_rental_order_availability :
    WallClock → (start_date end_date : ℕ) → List CheckItem → Exec World Availability
unfolding normalize_items evaluate_availability
check_rental_order_availability clock start_date end_date items = do
  normalized ← lift (normalize_items items)
  evaluate_availability clock record {
    start_date = start_date;
    end_date = end_date;
    items = normalized;
    exclude_order_id = none;
    rental_policy = none;
    turnaround_minutes = none;
  }
