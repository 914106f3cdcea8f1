-- ===== src/Orders/Bookings/Confirming.antt =====
-- What the transaction of a confirmation that returns has checked and written.
use rental_be_nest.Prelude.{
  ℕ, String, ◌≡◌, ◌≢◌, ap, ◌∙◌, true, ◌||◌, Option, some, List, [], ◌∷◌, ◌++◌, sort_by, Memᴰ, find,
  includes-filter_map, leb,
}
use rental_be_nest.Result.{ok, or_fail-ok, require-ok}
use rental_be_nest.Exec
use rental_be_nest.Exec.{
  Exec, pure, modify, reads, lift, ◌>>=◌, lift-ok, reads-ok, get-ok, modify-ok, bind_keeps,
}
use rental_be_nest.World.{World, order_lock}
use rental_be_nest.Orders.Tables.{OrderStatus, RentalOrder, NormalizedItem, Rentals, status_in}
use rental_be_nest.Orders.Booking.{get_booked_asset_unit_ids}
use rental_be_nest.Orders.Availability.{Availability, evaluate_availability, asset_unit_ids_of}
use rental_be_nest.Orders.Availability.Report.{NoneBooked, NoneBooked-Memᴰ}
use rental_be_nest.Orders.Availability.Frames.{evaluate_availability-Frames}
use rental_be_nest.Orders.Availability.Checked.{opening_hours}
use rental_be_nest.Orders.Availability.Accepted.{IsAccepted, evaluate_availability-IsAccepted}
use rental_be_nest.Orders.Bookings.{IsBooking}
use rental_be_nest.Orders.Bookings.Apart.{unlisted_apart}
use rental_be_nest.Orders.Bookings.Rows.{find_live-id}
use rental_be_nest.Orders.Service.{
  Runtime, is_live_order, find_existing_rental_order, items_of, assert_status_in, assert_available,
  update_row, acquire_advisory_locks, lock_le, distinct_locks,
}
use rental_be_nest.Orders.Service.Confirm.{
  confirm_params, product_locks, history_of, confirming, with_status, transition_order_status,
  confirm_in_transaction,
}

pub record IsConfirmed (runtime : Runtime) (id user : ℕ) (note : Option String) (w w' : World)
    : Type 0 where
  pub existing : RentalOrder
  pub found : find (is_live_order id) w.rentals.orders ≡ some existing
  pub was_draft : status_in existing.status (OrderStatus.draft ∷ []) ≡ true
  pub availability : Availability
  pub accepted :
      IsAccepted runtime.clock
        (opening_hours w)
        w.catalog
        w.rentals
        w.closures
        (confirm_params existing (items_of id w.rentals.items))
        availability
  pub orders :
      w'.rentals.orders ≡ update_row id (with_status OrderStatus.confirmed) w.rentals.orders
  pub items : w'.rentals.items ≡ w.rentals.items
  pub next_id : w'.next_id ≡ w.next_id
  pub status_histories :
      w'.rentals.status_histories
      ≡ w.rentals.status_histories ++ history_of (confirming existing user note) ∷ []
  pub locks :
      w'.locks
      ≡ (w.locks ++ sort_by lock_le (distinct_locks (order_lock id ∷ [])))
        ++ sort_by lock_le (distinct_locks (product_locks (items_of id w.rentals.items)))

module _ (runtime : Runtime) (id : ℕ) (note : Option String) (user : ℕ) where
  pub confirm_in_transaction-ok :
      (w : World) {o : RentalOrder}
      → (confirm_in_transaction runtime id note user w).0 ≡ ok o
      → IsConfirmed runtime id user note w (confirm_in_transaction runtime id note user w).1
  unfolding confirm_in_transaction find_existing_rental_order assert_status_in assert_available
      modify pure transition_order_status acquire_advisory_locks
  confirm_in_transaction-ok w h =
      let w1 = acquire_advisory_locks (order_lock id ∷ []) w in
      let (h1, e1) = modify-ok (acquire_advisory_locks (order_lock id ∷ [])) _ w h in
      let (existing, found, h2, e2) = reads-ok (find_existing_rental_order id) _ w1 h1 in
      let (_, draft, h3, e3) =
        lift-ok (assert_status_in existing.status (OrderStatus.draft ∷ [])) _ w1 h2 in
      let (h4, e4) = get-ok (λ (w : World). items_of id w.rentals.items) _ w1 h3 in
      let items = items_of id w.rentals.items in
      let (h5, e5) = modify-ok (acquire_advisory_locks (product_locks items)) _ w1 h4 in
      let w2 = acquire_advisory_locks (product_locks items) w1 in
      let p = confirm_params existing items in
      let (a, t6, h6, e6) = Exec.bind-ok (evaluate_availability runtime.clock p) _ w2 h5 in
      let w3 = (evaluate_availability runtime.clock p w2).1 in
      let (_, available, h7, e7) = lift-ok (assert_available a) _ w3 h6 in
      let (_, e8) = modify-ok (transition_order_status (confirming existing user note)) _ w3 h7 in
      let whole = e1 ∙ e2 ∙ e3 ∙ e4 ∙ e5 ∙ e6 ∙ e7 ∙ e8 in
      let same = (evaluate_availability-Frames runtime.clock p).at w2 in
      let is_id = find_live-id id w.rentals.orders (or_fail-ok _ _ found) in
      record {
        existing = existing;
        found = or_fail-ok _ _ found;
        was_draft = require-ok _ _ draft;
        availability = a;
        accepted =
            evaluate_availability-IsAccepted runtime.clock p w2 t6 (require-ok _ _ available);
        orders =
            ap (λ (w : World). w.rentals.orders) whole
            ∙ ap (λ r. update_row existing.id (with_status OrderStatus.confirmed) r.orders)
                same.rentals
            ∙ ap (λ k. update_row k (with_status OrderStatus.confirmed) w.rentals.orders) is_id;
        items = ap (λ (w : World). w.rentals.items) whole ∙ ap (λ r. r.items) same.rentals;
        next_id = ap (λ (w : World). w.next_id) whole ∙ same.next_id;
        status_histories =
            ap (λ (w : World). w.rentals.status_histories) whole
            ∙ ap (λ r. r.status_histories ++ history_of (confirming existing user note) ∷ [])
                same.rentals;
        locks = ap (λ (w : World). w.locks) whole ∙ same.locks;
      }

-- A unit of an item that the check accepts is apart from each other order that holds it.
pub accepted_apart :
    (r : Rentals) (o : RentalOrder) (items : List NormalizedItem) (s end_of_block : ℕ) {a : ℕ}
    {item : NormalizedItem}
    → NoneBooked
        (get_booked_asset_unit_ids r (asset_unit_ids_of items) s end_of_block (some o.id))
        items
    → Memᴰ item items
    → item.asset_unit_id ≡ some a
    → (p : RentalOrder) → IsBooking r a p
    → p.id ≢ o.id
    → (leb end_of_block p.start_date || leb p.blocked_end_date s) ≡ true
accepted_apart r o items s end_of_block {a} {item} free m named p b differ =
    let not_listed = NoneBooked-Memᴰ _ items {item = item} {a = a} free m named in
    let asked = includes-filter_map (λ (i : NormalizedItem). i.asset_unit_id) items m named in
    unlisted_apart r o (asset_unit_ids_of items) s end_of_block a not_listed asked p b differ
