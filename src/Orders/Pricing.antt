-- ===== src/Orders/Pricing.antt =====
-- src/modules/rental-orders/services/rental-order-pricing.service.ts. Amounts are exact, in
-- hundredths; a JavaScript number is exact only while the amounts stay whole and below 2^53.
pub mod UnitPrice
pub mod Rates
pub mod Sums
use rental_be_nest.Prelude.{
  ℕ, ◌+◌, ◌-◌, ◌*◌, ◌/◌, ◌%◌, Option, none, some, List, [], ◌∷◌, leb, ltb, map, map_get,
  max_sub_zero, if◌then◌else◌,
}
use rental_be_nest.Result.{Result, ok, err, bad_request, rental_order_product_invalid, ◌>>=◌}
use rental_be_nest.Catalog.{Product}
use rental_be_nest.Catalog.Tiers.{get_tier_daily_price}
use rental_be_nest.Orders.Tables.{NormalizedItem, PricedItem, OrderItem, Totals}
use rental_be_nest.Store.Policy.{RentalPolicy}

abbrev pub hour_ms : ℕ
hour_ms = 3600000

-- `Math.ceil(a / b)`
abbrev pub ceil_div : ℕ → ℕ → ℕ
ceil_div a b = (a + (b - 1)) / b

-- An end before the start gives a negative number of hours in the source, and 0 here: both are at
-- most 6, and callers refuse such dates.
unfoldable pub duration_hours : ℕ → ℕ → ℕ
duration_hours start_date end_date = ceil_div (end_date - start_date) hour_ms

unfoldable pub get_tier_price : Product → ℕ → ℕ
unfolding get_tier_daily_price
get_tier_price product days =
    get_tier_daily_price product.rental_price_tiers product.daily_price days

-- The price of whole days and, if the product has an overage price, of the hours beyond them. A
-- price object is truthy whatever its amount.
abbrev by_days : Product → ℕ → Option ℕ → ℕ
by_days product hours none =
    let billable_days = ceil_div hours 24 in get_tier_price product billable_days * billable_days
by_days product hours (some overage) =
    let full_days = hours / 24 in
    let extra_hours = hours - full_days * 24 in
    if ltb 0 extra_hours
    then get_tier_price product full_days * full_days + overage * extra_hours
    else (let billable_days = ceil_div hours 24 in
        get_tier_price product billable_days * billable_days)

unfoldable pub price_of_hours : Product → ℕ → ℕ
price_of_hours product hours =
    if leb hours 6
    then product.half_day_price
    else (if leb hours 24
        then product.daily_price
        else by_days product hours product.hourly_overage_price)

unfoldable pub calculate_rental_unit_price : Product → ℕ → ℕ → ℕ
unfolding price_of_hours duration_hours
calculate_rental_unit_price product start_date end_date =
    price_of_hours product (duration_hours start_date end_date)

unfoldable pub price_item : RentalPolicy → ℕ → ℕ → NormalizedItem → Product → PricedItem
price_item policy start_date end_date item product =
    let unit_price = calculate_rental_unit_price product start_date end_date in
    record {
      item = item;
      product_name_snapshot = product.name;
      sku_snapshot = product.sku;
      unit_price = unit_price;
      booking_hold_amount = policy.booking_hold_amount_per_unit;
      upfront_amount = unit_price + product.deposit_amount;
      refundable_deposit_amount = product.deposit_amount;
      deposit_amount = product.deposit_amount;
      line_total = unit_price;
    }

abbrev pub price_found : RentalPolicy → ℕ → ℕ → NormalizedItem → Option Product → Result PricedItem
price_found policy start_date end_date item none = err (bad_request rental_order_product_invalid)
price_found policy start_date end_date item (some product) =
    ok (price_item policy start_date end_date item product)

unfoldable pub price_items :
    List NormalizedItem → List Product → RentalPolicy → ℕ → ℕ → Result (List PricedItem)
unfolding price_item
price_items [] products policy start_date end_date = ok []
price_items (item ∷ items) products policy start_date end_date = do
  priced ←
      price_found policy start_date end_date item
        (map_get (λ (p : Product). p.id) products item.product_id)
  rest ← price_items items products policy start_date end_date
  ok (priced ∷ rest)

-- `items.reduce((total, item) => total + f(item), 0)`
abbrev pub reduce_sum : (PricedItem → ℕ) → ℕ → List PricedItem → ℕ
reduce_sum f total [] = total
reduce_sum f total (item ∷ items) = reduce_sum f (total + f item) items

unfoldable pub calculate_totals : List PricedItem → ℕ → ℕ → Totals
calculate_totals items delivery_fee_total discount_total =
    let subtotal = reduce_sum (λ i. i.line_total) 0 items in
    let deposit_total = reduce_sum (λ i. i.deposit_amount) 0 items in
    let booking_hold_total = reduce_sum (λ i. i.booking_hold_amount) 0 items in
    let upfront_total =
      max_sub_zero (subtotal + deposit_total + delivery_fee_total) discount_total in
    record {
      subtotal = subtotal;
      deposit_total = deposit_total;
      delivery_fee_total = delivery_fee_total;
      discount_total = discount_total;
      booking_hold_total = booking_hold_total;
      upfront_total = upfront_total;
      handover_due_total = max_sub_zero upfront_total booking_hold_total;
    }

-- The row that `toCreateOrderItemsData` and `toCreateManyOrderItemsData` write, under a fresh id.
unfoldable pub to_order_item : ℕ → ℕ → PricedItem → OrderItem
to_order_item order_id id p = record {
  id = id;
  order_id = order_id;
  product_id = p.item.product_id;
  asset_unit_id = p.item.asset_unit_id;
  product_name_snapshot = p.product_name_snapshot;
  sku_snapshot = p.sku_snapshot;
  unit_price = p.unit_price;
  booking_hold_amount = p.booking_hold_amount;
  upfront_amount = p.upfront_amount;
  refundable_deposit_amount = p.refundable_deposit_amount;
  deposit_amount = p.deposit_amount;
  line_total = p.line_total;
  note = p.item.note;
  deleted_at = none;
}

-- `toUpdateOrderItemData`: the amounts of a row are written anew; an item without an asset unit is
-- disconnected. The items of an existing order carry `null` for a missing note, which overwrites.
unfoldable pub update_order_item : PricedItem → OrderItem → OrderItem
update_order_item p row = record row {
  product_id = p.item.product_id;
  asset_unit_id = p.item.asset_unit_id;
  product_name_snapshot = p.product_name_snapshot;
  sku_snapshot = p.sku_snapshot;
  unit_price = p.unit_price;
  booking_hold_amount = p.booking_hold_amount;
  upfront_amount = p.upfront_amount;
  refundable_deposit_amount = p.refundable_deposit_amount;
  deposit_amount = p.deposit_amount;
  line_total = p.line_total;
  note = p.item.note;
}
