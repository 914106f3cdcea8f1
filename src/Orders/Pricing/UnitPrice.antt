-- ===== src/Orders/Pricing/UnitPrice.antt =====
-- The price of a unit by the length of the rental.
use rental_be_nest.Prelude.{
  ℕ, ◌+◌, ◌-◌, ◌*◌, ◌/◌, ◌≤◌, ◌<◌, ◌≡◌, refl, ◌↔◌, zero, suc, sym, lt→ltb, Option-cases, inl, inr,
  ◌∙◌, ap, none, some, Memᴰ, count, true, arith,
}
use rental_be_nest.Catalog.{Product, PriceTier}
use rental_be_nest.Catalog.Tiers.{covers}
use rental_be_nest.Catalog.Tiers.Lookup.{get_tier_daily_price_unique}
use rental_be_nest.Orders.Pricing.{
  hour_ms, ceil_div, duration_hours, get_tier_price, price_of_hours, calculate_rental_unit_price,
  by_days,
}

-- The number of hours is the least that contains the rental.
duration_hours-le_iff :
    (start_date end_date hours : ℕ)
    → (duration_hours start_date end_date ≤ hours) ↔ (end_date ≤ start_date + hours * hour_ms)
unfolding duration_hours
duration_hours-le_iff start_date end_date hours = (λ h. omega arith, λ h. omega arith)

more_than :
    (start_date end_date hours : ℕ)
    → start_date + hours * hour_ms < end_date
    → hours < duration_hours start_date end_date
unfolding duration_hours
more_than start_date end_date hours h = omega arith

half_day :
    (product : Product) (hours : ℕ)
    → hours ≤ 6
    → price_of_hours product hours ≡ product.half_day_price
unfolding price_of_hours
half_day product hours h = ground arith

daily :
    (product : Product) (hours : ℕ)
    → 6 < hours
    → hours ≤ 24
    → price_of_hours product hours ≡ product.daily_price
unfolding price_of_hours
daily product hours h k = ground arith

pub beyond_a_day :
    (product : Product) (hours : ℕ)
    → 24 < hours
    → price_of_hours product hours ≡ by_days product hours product.hourly_overage_price
unfolding price_of_hours
beyond_a_day product hours h = ground arith

by_days_overage :
    (product : Product) (days extra overage : ℕ)
    → extra < 24
    → by_days product (days * 24 + extra) (some overage)
      ≡ get_tier_price product days * days + overage * extra
by_days_overage product days zero overage x =
    let whole : (days * 24 + 0) / 24 ≡ days = omega arith in
    let same : ceil_div (days * 24 + 0) 24 ≡ days = omega arith in
    let none_left : days * 24 + 0 - days * 24 ≡ 0 = omega arith in
    rw (whole, none_left, same) (omega arith)
by_days_overage product days (suc n) overage x =
    let whole : (days * 24 + suc n) / 24 ≡ days = omega arith in
    let left : days * 24 + suc n - days * 24 ≡ suc n = omega arith in
    rw (whole, left, lt→ltb 0 (suc n) (omega arith)) refl

pub by_days_rounded :
    (product : Product) (hours days : ℕ)
    → ceil_div hours 24 ≡ days
    → by_days product hours none ≡ get_tier_price product days * days
by_days_rounded product hours days e = rw e refl

-- Up to six hours cost the half-day price, and more than six up to 24 the daily price.
pub short_rental_price :
    (product : Product) (start_date end_date : ℕ)
    → (end_date ≤ start_date + 6 * hour_ms
        → calculate_rental_unit_price product start_date end_date ≡ product.half_day_price)
      × (start_date + 6 * hour_ms < end_date
          → end_date ≤ start_date + 24 * hour_ms
          → calculate_rental_unit_price product start_date end_date ≡ product.daily_price)
unfolding calculate_rental_unit_price
short_rental_price product start_date end_date = (
  λ h.
      half_day product (duration_hours start_date end_date)
        ((duration_hours-le_iff start_date end_date 6).1 h),
  λ h k.
      daily product (duration_hours start_date end_date) (more_than start_date end_date 6 h)
        ((duration_hours-le_iff start_date end_date 24).1 k),
)

-- A rental of more than 24 hours, cut into whole days and less than a day of further hours: whole
-- days cost the tier price of their number, further hours the overage price; a product without an
-- overage price charges a started day as a whole one.
pub long_rental_price :
    (product : Product) (days extra : ℕ)
    → 1 ≤ days
    → extra < 24
    → 25 ≤ days * 24 + extra
    → ((overage : ℕ)
        → product.hourly_overage_price ≡ some overage
        → price_of_hours product (days * 24 + extra)
          ≡ get_tier_price product days * days + overage * extra)
      × (product.hourly_overage_price ≡ none
          → extra ≡ 0
          → price_of_hours product (days * 24 + extra) ≡ get_tier_price product days * days)
      × (product.hourly_overage_price ≡ none
          → 0 < extra
          → price_of_hours product (days * 24 + extra)
            ≡ get_tier_price product (days + 1) * (days + 1))
long_rental_price product days extra d x h =
    let hours = days * 24 + extra in
    let start = beyond_a_day product hours h in
    (
      λ overage e.
          start ∙ ap (by_days product hours) e ∙ by_days_overage product days extra overage x,
      λ e z.
          start ∙ ap (by_days product hours) e ∙ by_days_rounded product hours days (omega arith),
      λ e p.
          start
          ∙ ap (by_days product hours) e
          ∙ by_days_rounded product hours (days + 1) (omega arith),
    )

-- A rental of whole days that exactly one tier covers costs that tier's price for each day.
tier_rental_price :
    (product : Product) (days : ℕ) {tier : PriceTier}
    → 2 ≤ days
    → count (covers days) product.rental_price_tiers ≤ 1
    → Memᴰ tier product.rental_price_tiers
    → covers days tier ≡ true
    → price_of_hours product (days * 24) ≡ tier.daily_price * days
unfolding get_tier_price
tier_rental_price product days {tier} d one m c =
    let unique_price =
      get_tier_daily_price_unique product.rental_price_tiers product.daily_price days {tier = tier}
        one m c in
    let (with_overage, whole, _) =
      long_rental_price product days 0 (omega arith) (omega arith) (omega arith) in
    let same : days * 24 + 0 ≡ days * 24 = omega arith in
    let by_tier : price_of_hours product (days * 24 + 0) ≡ get_tier_price product days * days =
      elim (Option-cases product.hourly_overage_price) [
        | inl missing ↦ whole missing refl
        | inr (overage, there) ↦ omega (arith, with_overage overage there)
      ] in
    ap (price_of_hours product) (sym same) ∙ by_tier ∙ ap (λ (p : ℕ). p * days) unique_price
