-- ===== src/Orders/Pricing/Rates.antt =====
-- The unit price of a rental against a list of rates, in the words of the calendar: dates, whole days
-- and hours.
use rental_be_nest.Prelude.{
  ℕ, ◌+◌, ◌*◌, ◌/◌, ◌%◌, ◌≤◌, ◌<◌, ◌≡◌, ◌↔◌, sym, subst, ap, ◌∙◌, none, some, inl, inr, Bool-cases,
  Option-cases, leb, arith,
}
use rental_be_nest.Catalog.{Product}
use rental_be_nest.Catalog.Tiers.Rate.{DayRate, DayRate-sound, day_rated}
use rental_be_nest.Orders.Pricing.{
  ceil_div, duration_hours, get_tier_price, price_of_hours, by_days, calculate_rental_unit_price,
}
use rental_be_nest.Orders.Pricing.UnitPrice.{
  short_rental_price, long_rental_price, beyond_a_day, by_days_rounded,
}

-- An hour in milliseconds.
abbrev pub one_hour : ℕ
one_hour = 60 * 60 * 1000

-- The price of each day of a rental of some days.
abbrev pub PerDay : Product → (days price : ℕ) → Type 0
PerDay product days price = DayRate product.rental_price_tiers product.daily_price days price

-- The price of a unit that is rented from one date to another.
pub data Rate (product : Product) (start_date end_date : ℕ) : ℕ → Type 0 where
  half_day :
      end_date ≤ start_date + 6 * one_hour → Rate product start_date end_date product.half_day_price
  one_day :
      start_date + 6 * one_hour < end_date
      → end_date ≤ start_date + 24 * one_hour
      → Rate product start_date end_date product.daily_price
  -- Whole days, and the hours begun beyond them at the overage price.
  days_and_hours :
      (days extra overage price : ℕ)
      → product.hourly_overage_price ≡ some overage
      → 24 < days * 24 + extra
      → extra < 24
      → start_date + (days * 24 + extra) * one_hour < end_date + one_hour
      → end_date ≤ start_date + (days * 24 + extra) * one_hour
      → PerDay product days price
      → Rate product start_date end_date (price * days + overage * extra)
  -- Without an overage price a day begun is a whole one.
  days_begun :
      (days price : ℕ)
      → product.hourly_overage_price ≡ none
      → 2 ≤ days
      → start_date + days * 24 * one_hour < end_date + 24 * one_hour
      → end_date ≤ start_date + days * 24 * one_hour
      → PerDay product days price
      → Rate product start_date end_date (price * days)

tier_price-PerDay :
    (product : Product) (days : ℕ) {price : ℕ}
    → PerDay product days price
    → get_tier_price product days ≡ price
unfolding get_tier_price
tier_price-PerDay product days rate =
    DayRate-sound product.rental_price_tiers product.daily_price days rate

exact_hours :
    (start_date end_date hours : ℕ)
    → start_date + hours * one_hour < end_date + one_hour
    → end_date ≤ start_date + hours * one_hour
    → duration_hours start_date end_date ≡ hours
unfolding duration_hours
exact_hours start_date end_date hours low high = omega arith

within_hours :
    (start_date end_date : ℕ)
    → start_date + 24 * one_hour < end_date
    → let hours = duration_hours start_date end_date in
      (start_date + hours * one_hour < end_date + one_hour)
      × (end_date ≤ start_date + hours * one_hour)
      × (24 < hours)
unfolding duration_hours
within_hours start_date end_date h = (omega arith, omega arith, omega arith)

begun_days :
    (start_date end_date days : ℕ)
    → 2 ≤ days
    → start_date + days * 24 * one_hour < end_date + 24 * one_hour
    → end_date ≤ start_date + days * 24 * one_hour
    → (24 < duration_hours start_date end_date)
      × (ceil_div (duration_hours start_date end_date) 24 ≡ days)
unfolding duration_hours
begun_days start_date end_date days d low high = (omega arith, omega arith)

module _ (product : Product) (start_date end_date : ℕ) where
  Rate-sound :
      {p : ℕ}
      → Rate product start_date end_date p
      → calculate_rental_unit_price product start_date end_date ≡ p
  unfolding calculate_rental_unit_price
  Rate-sound (half_day h) = (short_rental_price product start_date end_date).0 h
  Rate-sound (one_day h k) = (short_rental_price product start_date end_date).1 h k
  Rate-sound (days_and_hours days extra overage price has long x low high rate) =
      let (priced, _, _) =
        long_rental_price product days extra (omega arith) x (omega (arith, long)) in
      ap (price_of_hours product) (exact_hours start_date end_date (days * 24 + extra) low high)
      ∙ priced overage has
      ∙ ap (λ r. r * days + overage * extra) (tier_price-PerDay product days rate)
  Rate-sound (days_begun days price has d low high rate) =
      let hours = duration_hours start_date end_date in
      let (long, begun) = begun_days start_date end_date days d low high in
      beyond_a_day product hours long
      ∙ ap (by_days product hours) has
      ∙ by_days_rounded product hours days begun
      ∙ ap (λ r. r * days) (tier_price-PerDay product days rate)

  long-Rate : start_date + 24 * one_hour < end_date → (p : ℕ) × Rate product start_date end_date p
  long-Rate h =
      let (low, high, long) = within_hours start_date end_date h in
      let hours = duration_hours start_date end_date in
      elim (Option-cases product.hourly_overage_price) [
        | inl missing ↦
            let days = ceil_div hours 24 in
            let (price, rate) = day_rated product.rental_price_tiers product.daily_price days in
            (
              price * days,
              days_begun days price missing (omega (arith, long)) (omega (arith, low, high))
                  (omega (arith, low, high)) rate,
            )
        | inr (overage, has) ↦
            let days = hours / 24 in
            let extra = hours % 24 in
            let whole : days * 24 + extra ≡ hours = omega arith in
            let (price, rate) = day_rated product.rental_price_tiers product.daily_price days in
            (
              price * days + overage * extra,
              days_and_hours days extra overage price has (omega (arith, long, whole)) (omega arith)
                  (omega (arith, low, whole)) (omega (arith, high, whole)) rate,
            )
      ]

  rated : (p : ℕ) × Rate product start_date end_date p
  rated = elim (Bool-cases (leb end_date (start_date + 6 * one_hour))) [
    | inl short ↦ (product.half_day_price, half_day (ground (arith, short)))
    | inr long ↦ elim (Bool-cases (leb end_date (start_date + 24 * one_hour))) [
      | inl day ↦ (product.daily_price, one_day (ground (arith, long)) (ground (arith, day)))
      | inr longer ↦ long-Rate (ground (arith, longer))
    ]
  ]

-- The unit price of a rental is a price exactly when it is the rate of its dates: half a day's price
-- up to six hours, the daily price up to 24; beyond, the price per day of the whole days for each of
-- them and the overage price for each hour begun beyond them, or without an overage price the price
-- per day of the days begun for each of them. The price per day of a number of days is that of the
-- first tier in whose range the number lies, and the daily price where there is none.
pub calculate_rental_unit_price_iff :
    (product : Product) (start_date end_date p : ℕ)
    → (calculate_rental_unit_price product start_date end_date ≡ p)
      ↔ Rate product start_date end_date p
calculate_rental_unit_price_iff product start_date end_date p =
    let (q, rate) = rated product start_date end_date in
    (
      λ e.
          subst (Rate product start_date end_date)
            (sym (Rate-sound product start_date end_date rate) ∙ e) rate,
      λ r. Rate-sound product start_date end_date r,
    )
