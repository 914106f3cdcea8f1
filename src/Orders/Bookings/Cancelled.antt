-- ===== src/Orders/Bookings/Cancelled.antt =====
-- What a cancellation that returns has found and written.
use rental_be_nest.Prelude.{ℕ, String, ◌≡◌, ◌≢◌, true, some, [], ◌∷◌, ◌++◌, map, find}
use rental_be_nest.Exec
use rental_be_nest.Exec.{Exec, ◌>>=◌}
use rental_be_nest.World.{World, Customer}
use rental_be_nest.Orders.Tables.{RentalOrder, status_in}
use rental_be_nest.Orders.Service.{Runtime, is_live_order}
use rental_be_nest.Orders.Service.Cancel.{cancelable_statuses, cancel_history, cancelled_order}
use rental_be_nest.Orders.Bookings.{IsBooking}
use rental_be_nest.Orders.Bookings.Rows.{one_row}

module _ (runtime : Runtime) (id : ℕ) (cancel_reason : String) (user : ℕ) where
  pub record IsCancelled (w w' : World) : Type 0 where
    pub existing : RentalOrder
    pub found : find (is_live_order id) w.rentals.orders ≡ some existing
    pub cancelable : status_in existing.status cancelable_statuses ≡ true
    pub customer : Customer
    pub orders :
        w'.rentals.orders
        ≡ map
            (one_row id (cancelled_order runtime id cancel_reason user existing customer))
            w.rentals.orders
    pub items : w'.rentals.items ≡ w.rentals.items
    pub status_histories :
        w'.rentals.status_histories
        ≡ w.rentals.status_histories ++ cancel_history runtime id cancel_reason user existing ∷ []
    pub freed : (a : ℕ) (p : RentalOrder) → IsBooking w'.rentals a p → p.id ≢ id
