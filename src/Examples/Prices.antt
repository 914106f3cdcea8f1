-- ===== src/Examples/Prices.antt =====
-- Prices at concrete inputs.
use rental_be_nest.Prelude.{
  ℕ, ◌+◌, ◌*◌, ◌≡◌, ◌≤◌, ◌↔◌, refl, Memᴰ, none, some, List, [], ◌∷◌, count, length, max_sub_zero,
}
use rental_be_nest.Result.{ok}
use rental_be_nest.Catalog.Tiers.{PriceTierIn, days, undefined, validate_rental_price_tiers}
use rental_be_nest.Catalog.Tiers.Disjoint.{WellFormed, holds_day, validate_rental_price_tiers_iff}
use rental_be_nest.Orders.{NormalizedItem, PricedItem, Totals}
use rental_be_nest.Orders.Pricing.{
  calculate_rental_unit_price, price_item, price_items, calculate_totals,
}
use rental_be_nest.Orders.Pricing.Rates.{Rate, calculate_rental_unit_price_iff}
use rental_be_nest.Orders.Pricing.Sums.{sum_of, calculate_totals-price_items}
use rental_be_nest.Examples.Data.{camera, policy}

abbrev tiers : List PriceTierIn
tiers =
    record { min_days = 3; max_days = days 6; daily_price = 180000; name = none; sort_order = none }
    ∷ record {
      min_days = 7;
      max_days = undefined;
      daily_price = 150000;
      name = none;
      sort_order = none;
    }
    ∷ []

validate_rental_price_tiers_iff_example : (validate_rental_price_tiers (some tiers) ≡ ok tt) ↔ (
    ((tier : PriceTierIn) → Memᴰ tier tiers → WellFormed tier)
    × ((n : ℕ) → count (holds_day n) tiers ≤ 1))
validate_rental_price_tiers_iff_example = validate_rental_price_tiers_iff tiers

-- Three days and five hours at the overage price.
calculate_rental_unit_price_iff_example :
    (calculate_rental_unit_price camera 3600000 280800000 ≡ 180000 * 3 + 20000 * 5)
    ↔ Rate camera 3600000 280800000 (180000 * 3 + 20000 * 5)
calculate_rental_unit_price_iff_example =
    calculate_rental_unit_price_iff camera 3600000 280800000 (180000 * 3 + 20000 * 5)

abbrev line : NormalizedItem
line = record { id = none; product_id = 10; asset_unit_id = none; note = none }

abbrev priced : List PricedItem
priced = price_item policy 3600000 10800000 line camera ∷ []

is_priced : price_items (line ∷ []) (camera ∷ []) policy 3600000 10800000 ≡ ok priced
unfolding price_items
is_priced = refl

calculate_totals-price_items_example :
    let t : Totals = calculate_totals priced 30000 10000 in
    (t.upfront_total ≡ max_sub_zero (sum_of (λ p. p.upfront_amount) priced + 30000) 10000)
    × (t.subtotal ≡ sum_of (λ p. p.unit_price) priced)
    × (t.booking_hold_total ≡ policy.booking_hold_amount_per_unit * length (line ∷ []))
    × (t.booking_hold_total ≤ t.upfront_total
        → t.booking_hold_total + t.handover_due_total ≡ t.upfront_total)
    × (t.upfront_total ≤ t.booking_hold_total → t.handover_due_total ≡ 0)
calculate_totals-price_items_example =
    calculate_totals-price_items (line ∷ []) (camera ∷ []) policy 3600000 10800000 30000 10000
      {ps = priced} is_priced
