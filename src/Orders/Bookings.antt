-- ===== src/Orders/Bookings.antt =====
-- Which orders hold which asset units: the reading of the tables that
-- src/modules/rental-orders keeps free of double bookings.
pub mod Rows
pub mod Sound
pub mod Apart
pub mod Confirming
pub mod Confirmed
pub mod AssignedItems
pub mod Assigning
pub mod Assigned
pub mod Created
pub mod Kept
pub mod Rewriting
pub mod Updated
pub mod Released
pub mod Cancelled
pub mod Deleted
use rental_be_nest.Prelude.{
  ℕ, ◌≡◌, ◌≢◌, sym, ◌∙◌, ◌⊎◌, inl, inr, Bool, true, ◌&&◌, ◌||◌, Option, some, List, Memᴰ, leb,
  arith, ◌<◌,
}
use rental_be_nest.World.{World}
use rental_be_nest.Catalog.{is_null}
use rental_be_nest.Orders.Tables.{
  RentalOrder, OrderItem, Rentals, status_in, blocking_order_statuses,
}
use rental_be_nest.Orders.Booking.{find_order}
use rental_be_nest.Orders.Availability.{add_minutes}

-- An order that takes part in `blockingOrderWhere`, whatever the period.
abbrev pub blocks : RentalOrder → Bool
blocks o = is_null o.deleted_at && status_in o.status blocking_order_statuses

-- A live item of a blocking order names the unit.
pub record IsBooking (r : Rentals) (a : ℕ) (o : RentalOrder) : Type 0 where
  pub item : OrderItem
  pub mem : Memᴰ item r.items
  pub names : item.asset_unit_id ≡ some a
  pub live : is_null item.deleted_at ≡ true
  pub of : find_order item.order_id r.orders ≡ some o
  pub blocking : blocks o ≡ true

-- The periods, each with its turnaround, have no moment in common.
abbrev pub are_apart : RentalOrder → RentalOrder → Bool
are_apart o p = leb o.blocked_end_date p.start_date || leb p.blocked_end_date o.start_date

abbrev pub NoDoubleBooking : Rentals → Type 0
NoDoubleBooking r =
    (a : ℕ) (o p : RentalOrder)
    → IsBooking r a o
    → IsBooking r a p
    → o.id ≢ p.id
    → are_apart o p ≡ true

-- A row of the same order and the same period.
pub record SamePeriod (o p : RentalOrder) : Type 0 where
  pub id : o.id ≡ p.id
  pub start_date : o.start_date ≡ p.start_date
  pub blocked_end_date : o.blocked_end_date ≡ p.blocked_end_date

-- A booking that was there before, perhaps on another version of the order's row.
pub record WasBooking (r : Rentals) (a : ℕ) (o : RentalOrder) : Type 0 where
  pub before : RentalOrder
  pub booking : IsBooking r a before
  pub same : SamePeriod o before

-- A booking of one order, apart from all that the other orders had.
pub record IsNewBooking (r : Rentals) (id a : ℕ) (o : RentalOrder) : Type 0 where
  pub is_order : o.id ≡ id
  pub apart : (p : RentalOrder) → IsBooking r a p → p.id ≢ id → are_apart o p ≡ true

-- Bookings stay apart where each one is an old one, or one of a single order that was checked.
pub NoDoubleBooking-grows :
    (r r' : Rentals) (id : ℕ)
    → ((a : ℕ) (o : RentalOrder) → IsBooking r' a o → WasBooking r a o ⊎ IsNewBooking r id a o)
    → NoDoubleBooking r
    → NoDoubleBooking r'
NoDoubleBooking-grows r r' id split old a o p b c differ = elim (split a o b) [
  | inl x ↦ elim (split a p c) [
    | inl y ↦
        let h =
          old a x.before y.before x.booking y.booking
            (λ e. differ (x.same.id ∙ e ∙ sym y.same.id)) in
        ground (
          arith, h, x.same.start_date, x.same.blocked_end_date, y.same.start_date,
          y.same.blocked_end_date,
        )
    | inr y ↦
        let h = y.apart x.before x.booking (λ e. differ (x.same.id ∙ e ∙ sym y.is_order)) in
        ground (arith, h, x.same.start_date, x.same.blocked_end_date)
  ]
  | inr x ↦ elim (split a p c) [
    | inl y ↦
        let h = x.apart y.before y.booking (λ e. differ (x.is_order ∙ sym e ∙ sym y.same.id)) in
        ground (arith, h, y.same.start_date, y.same.blocked_end_date)
    | inr y ↦ absurd (differ (x.is_order ∙ sym y.is_order))
  ]
]

-- The end of the blocked period is computed from the order's own end and turnaround.
abbrev pub BlockedEnds : List RentalOrder → Type 0
BlockedEnds orders =
    (o : RentalOrder)
    → Memᴰ o orders
    → o.blocked_end_date ≡ add_minutes o.end_date o.turnaround_minutes

-- What every call keeps: no two orders hold one unit at one moment, an order's blocked period is its
-- own plus its turnaround, item ids tell the order, and the next id is above all ids.
pub record IsSound (r : Rentals) (next_id : ℕ) : Type 0 where
  pub no_double_booking : NoDoubleBooking r
  pub blocked_ends : BlockedEnds r.orders
  pub item_keys :
      (i j : OrderItem) → Memᴰ i r.items → Memᴰ j r.items → i.id ≡ j.id → i.order_id ≡ j.order_id
  pub items_below : (i : OrderItem) → Memᴰ i r.items → i.id < next_id
  pub orders_below : (o : RentalOrder) → Memᴰ o r.orders → o.id < next_id

abbrev pub Sound : World → Type 0
Sound w = IsSound w.rentals w.next_id
