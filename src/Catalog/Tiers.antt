-- ===== src/Catalog/Tiers.antt =====
-- Price tiers as they come in with a product: `validateRentalPriceTiers` of
-- src/modules/products/products.service.ts, and the price of a day under stored tiers,
-- `getTierDailyPrice` of src/modules/rental-orders/services/rental-order-pricing.service.ts.
pub mod Disjoint
pub mod Lookup
pub mod Rate
use rental_be_nest.Prelude.{
  ℕ, ◌≤◌, ◌≡◌, Bool, true, false, ◌&&◌, Option, none, some, List, [], ◌∷◌, String, ltb, leb, find,
  sort_by, if◌then◌else◌, ◌or_else◌,
}
use rental_be_nest.Result.{
  Result, ok, err, Error, bad_request, product_rental_price_tier_invalid, ◌>>◌,
}
use rental_be_nest.Catalog.Tables.{PriceTier}

-- An optional number of a request body: left out, `null`, or given.
pub data MaxDays : Type 0 where
  undefined null : MaxDays
  days : ℕ → MaxDays

-- `ProductRentalPriceTierInDto`
pub record PriceTierIn : Type 0 where
  pub min_days : ℕ
  pub max_days : MaxDays
  pub daily_price : ℕ
  pub name : Option String
  pub sort_order : Option ℕ

-- `maxDays !== undefined && maxDays < minDays`, where `null` counts as 0.
unfoldable pub ends_before_start : MaxDays → ℕ → Bool
ends_before_start undefined n = false
ends_before_start null n = ltb 0 n
ends_before_start (days m) n = ltb m n

-- `(maxDays ?? Infinity) >= minDays`
unfoldable pub reaches : MaxDays → ℕ → Bool
reaches undefined n = true
reaches null n = true
reaches (days m) n = leb n m

abbrev invalid : Error
invalid = bad_request product_rental_price_tier_invalid

-- The loop of `validateRentalPriceTiers` over the sorted tiers.
unfoldable pub check_sorted : List PriceTierIn → Result (Unit {0})
unfolding ends_before_start reaches
check_sorted [] = ok tt
check_sorted (tier ∷ []) =
    if ends_before_start tier.max_days tier.min_days then err invalid else ok tt
check_sorted (tier ∷ next ∷ rest) =
    let later = check_sorted (next ∷ rest) in
    if ends_before_start tier.max_days tier.min_days
    then err invalid
    else (if reaches tier.max_days next.min_days then err invalid else later)

-- `(a, b) => a.minDays - b.minDays`
abbrev pub by_min_days : PriceTierIn → PriceTierIn → Bool
by_min_days a b = leb a.min_days b.min_days

unfoldable pub validate_rental_price_tiers : Option (List PriceTierIn) → Result (Unit {0})
unfolding check_sorted
validate_rental_price_tiers none = ok tt
validate_rental_price_tiers (some tiers) = check_sorted (sort_by by_min_days tiers)

-- `priceTier.minDays <= days && days <= (priceTier.maxDays ?? Infinity)`
abbrev pub up_to : Option ℕ → ℕ → Bool
up_to none n = true
up_to (some m) n = leb n m

abbrev pub covers : ℕ → PriceTier → Bool
covers n tier = leb tier.min_days n && up_to tier.max_days n

daily_price_of : Option PriceTier → ℕ → ℕ
daily_price_of none d = d
daily_price_of (some tier) d = tier.daily_price

-- `getTierDailyPrice`, over the tiers and the default price of a product
unfoldable pub get_tier_daily_price : List PriceTier → ℕ → ℕ → ℕ
unfolding daily_price_of
get_tier_daily_price tiers default n = daily_price_of (find (covers n) tiers) default
