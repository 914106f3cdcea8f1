-- ===== src/Orders/Bookings/Apart.antt =====
-- A unit that the query for booked units leaves out is apart from each other order that holds it.
use rental_be_nest.Prelude.{
  ℕ, ◌≡◌, ◌≢◌, true, false, ◌||◌, some, List, includes, arith, ==_iff, leb, ◌==◌,
}
use rental_be_nest.Orders.Tables.{RentalOrder, Rentals}
use rental_be_nest.Orders.Booking.{is_booked, blocking_order_where, get_booked_asset_unit_ids}
use rental_be_nest.Orders.Booking.Blocking.{not_booked}
use rental_be_nest.Orders.Bookings.{IsBooking}

pub unlisted_apart :
    (r : Rentals) (o : RentalOrder) (ids : List ℕ) (s end_of_block a : ℕ)
    → includes (get_booked_asset_unit_ids r ids s end_of_block (some o.id)) a ≡ false
    → includes ids a ≡ true
    → (p : RentalOrder) → IsBooking r a p
    → p.id ≢ o.id
    → (leb end_of_block p.start_date || leb p.blocked_end_date s) ≡ true
unfolding is_booked blocking_order_where
unlisted_apart r o ids s end_of_block a not_listed asked p b differ =
    let unbooked =
      not_booked r ids s end_of_block (some o.id) b.item a not_listed asked b.mem b.names in
    let other : (p.id == o.id) ≡ false = ground (arith, ==_iff p.id o.id, differ) in
    let found = b.of in
    let live = b.live in
    let blocking = b.blocking in ground (arith, unbooked, found, live, blocking, other)
