-- ===== src/Orders/Booking.antt =====
-- Which items block a period: `blockingOrderWhere`, `getBookedAssetUnitIds` and
-- `getBookedQuantityByProduct` of
-- src/modules/rental-orders/services/rental-order-availability.service.ts.
pub mod Blocking
use rental_be_nest.Prelude.{
  ℕ, Bool, true, false, not, ◌&&◌, Option, none, some, List, find, keep, count, filter_map,
  includes, unique, ltb, ◌==◌, if◌then◌else◌,
}
use rental_be_nest.Catalog.{is_null}
use rental_be_nest.Orders.Tables.{
  RentalOrder, OrderItem, Rentals, status_in, blocking_order_statuses,
}

-- The order that an item belongs to.
unfoldable pub find_order : ℕ → List RentalOrder → Option RentalOrder
find_order id orders = find (λ o. o.id == id) orders

-- `excludeOrderId && { id: { not: excludeOrderId } }`
abbrev pub is_not_excluded : Option ℕ → ℕ → Bool
is_not_excluded none id = true
is_not_excluded (some excluded) id = not (id == excluded)

unfoldable pub blocking_order_where : ℕ → ℕ → Option ℕ → RentalOrder → Bool
blocking_order_where start_date blocked_end_date exclude_order_id o =
    is_null o.deleted_at
    && is_not_excluded exclude_order_id o.id
    && status_in o.status blocking_order_statuses
    && ltb o.start_date blocked_end_date
    && ltb start_date o.blocked_end_date

abbrev pub order_passes : (RentalOrder → Bool) → Option RentalOrder → Bool
order_passes p none = false
order_passes p (some o) = p o

-- `deletedAt: null, order: blockingOrderWhere(…)`
unfoldable pub is_booked : List RentalOrder → ℕ → ℕ → Option ℕ → OrderItem → Bool
is_booked orders start_date blocked_end_date exclude_order_id item =
    is_null item.deleted_at
    && order_passes (blocking_order_where start_date blocked_end_date exclude_order_id)
        (find_order item.order_id orders)

-- `assetUnitId: { in: ids }`
abbrev pub is_among : List ℕ → Option ℕ → Bool
is_among ids none = false
is_among ids (some a) = includes ids a

unfoldable pub get_booked_asset_unit_ids : Rentals → List ℕ → ℕ → ℕ → Option ℕ → List ℕ
get_booked_asset_unit_ids rentals asset_unit_ids start_date blocked_end_date exclude_order_id =
    filter_map (λ (i : OrderItem). i.asset_unit_id)
      (keep
        (λ i.
          is_among (unique asset_unit_ids) i.asset_unit_id
          && is_booked rentals.orders start_date blocked_end_date exclude_order_id i)
        rentals.items)

-- The count of a product's group in `groupBy`, 0 where there is no group.
unfoldable pub get_booked_quantity : Rentals → List ℕ → ℕ → ℕ → Option ℕ → ℕ → ℕ
get_booked_quantity rentals product_ids start_date blocked_end_date exclude_order_id product_id =
    if includes (unique product_ids) product_id
    then count
        (λ i.
          i.product_id == product_id
          && is_booked rentals.orders start_date blocked_end_date exclude_order_id i)
        rentals.items
    else 0
