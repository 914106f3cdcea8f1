-- ===== src/Orders/Bookings/Confirmed.antt =====
-- What a confirmation that returns has checked and written, and that it books no unit twice.
use rental_be_nest.Prelude.{
  ℕ, String, ◌≡◌, refl, sym, ap, ◌∙◌, subst, true, Option, some, [], Memᴰ, Memᴰ-find, map-Memᴰ,
  keep-Memᴰ, arith, ==_iff, Bool-cases, inl, inr, ◌⊎◌, ◌==◌,
}
use rental_be_nest.Result.{ok}
use rental_be_nest.Exec
use rental_be_nest.Exec.{
  Exec, pure, modify, reads, lift, ◌>>=◌, lift-ok, reads-ok, get-ok, modify-ok, bind_keeps,
}
use rental_be_nest.World.{World, order_confirmed}
use rental_be_nest.Catalog.{is_null}
use rental_be_nest.Orders.Tables.{OrderStatus, RentalOrder, OrderItem}
use rental_be_nest.Orders.Booking.{find_order}
use rental_be_nest.Orders.Availability.{add_minutes}
use rental_be_nest.Orders.Availability.Served.{CanServe-NoneBooked}
use rental_be_nest.Orders.Bookings.{IsBooking, WasBooking, IsNewBooking, BlockedEnds, blocks, Sound}
use rental_be_nest.Orders.Bookings.Sound.{
  WasBooking-refl, map-Sound, one_row-EndsWell, transaction_keeps, transaction-ok,
}
use rental_be_nest.Orders.Bookings.Rows.{
  find_order-id, find_order-map, one_row, one_row-id, live_is_found,
}
use rental_be_nest.Orders.Service.{
  Runtime, is_live_order, items_of, normalize_existing_items, normalized_existing, transaction,
  emit_availability_changed,
}
use rental_be_nest.Orders.Service.Confirm.{
  confirm_params, with_status, confirm_in_transaction, confirm_rental_order,
}
use rental_be_nest.Orders.Bookings.Confirming.{
  IsConfirmed, confirm_in_transaction-ok, accepted_apart,
}

module _ (runtime : Runtime) (id : ℕ) (note : Option String) (user : ℕ) (w w' : World) where
  confirmed_end :
      (c : IsConfirmed runtime id user note w w')
      → BlockedEnds w.rentals.orders
      → c.existing.blocked_end_date ≡ c.availability.blocked_end_date
  unfolding confirm_params
  confirmed_end c ends =
      let (m, _) = Memᴰ-find (is_live_order id) w.rentals.orders c.found in
      let minutes = c.accepted.given c.existing.turnaround_minutes refl in
      ends c.existing m ∙ sym (c.accepted.blocked ∙ ap (add_minutes c.existing.end_date) minutes)

  -- A booking after the confirmation is one from before, or one of the confirmed order.
  confirmed_booking :
      IsConfirmed runtime id user note w w'
      → BlockedEnds w.rentals.orders
      → (a : ℕ) (o : RentalOrder) → IsBooking w'.rentals a o
      → WasBooking w.rentals a o ⊎ IsNewBooking w.rentals id a o
  unfolding confirm_params normalize_existing_items items_of
  confirmed_booking c ends a o b =
      let at_before = subst (λ os. find_order b.item.order_id os ≡ some o) c.orders b.of in
      let (before, found, row) =
        find_order-map b.item.order_id (one_row id (with_status OrderStatus.confirmed))
          w.rentals.orders (one_row-id id _ (λ o. refl)) at_before in
      let (of_order, is_order) = find_order-id b.item.order_id w.rentals.orders found in
      let was_in = subst (Memᴰ b.item) c.items b.mem in
      elim (Bool-cases (before.id == id)) [
        | inl t ↦
            let e = c.existing in
            let is_e : before.id ≡ id = (==_iff before.id id).0 t in
            let changed : o ≡ with_status OrderStatus.confirmed before = row ∙ rw (t) refl in
            let live : is_null before.deleted_at ≡ true =
              ground (arith, ap blocks (sym changed) ∙ b.blocking) in
            let same : before ≡ e =
              live_is_found id w.rentals.orders c.found
                (subst (λ k. find_order k w.rentals.orders ≡ some before) (sym is_order ∙ is_e)
                  found)
                live in
            let starts : o.start_date ≡ e.start_date =
              ap (λ (o : RentalOrder). o.start_date) changed
              ∙ ap (λ (o : RentalOrder). o.start_date) same in
            let blocked : o.blocked_end_date ≡ c.availability.blocked_end_date =
              ap (λ (o : RentalOrder). o.blocked_end_date) changed
              ∙ ap (λ (o : RentalOrder). o.blocked_end_date) same
              ∙ confirmed_end c ends in
            let listed = map-Memᴰ normalized_existing (items_of id w.rentals.items) (
              keep-Memᴰ (λ (i : OrderItem). i.order_id == id) w.rentals.items was_in
                ((==_iff b.item.order_id id).1 (sym is_order ∙ is_e))) in
            let p = confirm_params e (items_of id w.rentals.items) in
            let free =
              CanServe-NoneBooked w.catalog w.rentals p e.turnaround_minutes
                c.availability.blocked_end_date c.accepted.serves p.items (λ i m. m) in
            inr record {
              is_order = ap (λ (o : RentalOrder). o.id) changed ∙ is_e;
              apart = λ p pb differ.
                  rw (starts, blocked)
                    (accepted_apart w.rentals e
                      (normalize_existing_items (items_of id w.rentals.items)) e.start_date
                      c.availability.blocked_end_date free listed b.names p pb
                      (λ q. differ (q ∙ ap (λ (o : RentalOrder). o.id) (sym same) ∙ is_e)));
            }
        | inr f ↦
            let same : o ≡ before = row ∙ rw (f) refl in
            inl (WasBooking-refl before b was_in found same)
      ]

  confirmed-Sound : IsConfirmed runtime id user note w w' → Sound w → Sound w'
  confirmed-Sound c s =
      let f = with_status OrderStatus.confirmed in
      map-Sound w w' id (one_row id f) c.orders c.items c.next_id (one_row-id id f (λ o. refl))
        (one_row-EndsWell id f (λ o h. h)) (confirmed_booking c s.blocked_ends) s

-- A confirmation that returns has found a live draft whose items the availability check, for the
-- order's own dates and turnaround and leaving the order itself out, accepts: the dates are in order,
-- no unit is named twice, each product is active and not deleted, each named unit is assignable and
-- of its item's product, the store is open at both ends by the hours that the service reads and closed
-- for no moment between, no item that occupies the period holds a named unit, and of each product the
-- items that occupy the period and those of the order together are at most the assignable units. It
-- has changed the order's status to confirmed, appended the change to the histories, left all items
-- and the next id, and taken the locks of the order and then of its products.
pub confirm_rental_order-IsConfirmed :
    (runtime : Runtime) (id : ℕ) (note : Option String) (user : ℕ) (w : World) (o : RentalOrder)
    → (confirm_rental_order runtime id note user w).0 ≡ ok o
    → IsConfirmed runtime id user note
        (record w { locks = [] })
        (confirm_rental_order runtime id note user w).1
unfolding confirm_rental_order emit_availability_changed pure
confirm_rental_order-IsConfirmed runtime id note user w o h =
    let body = confirm_in_transaction runtime id note user in
    let w0 = record w { locks = [] } in
    let (o1, h1, h2, e1) = Exec.bind-ok (transaction body) _ w h in
    let w1 = (transaction body w).1 in
    let announce =
      λ (w : World). emit_availability_changed order_confirmed (items_of id w.rentals.items) w in
    let (_, e2) = modify-ok announce _ w1 h2 in
    let (ret, e0) = transaction-ok body w h1 in
    let c = confirm_in_transaction-ok runtime id note user w0 ret in
    let whole = e1 ∙ e2 in
    record {
      existing = c.existing;
      found = c.found;
      was_draft = c.was_draft;
      availability = c.availability;
      accepted = c.accepted;
      orders =
          ap (λ (w : World). w.rentals.orders) whole
          ∙ ap (λ (w : World). w.rentals.orders) e0
          ∙ c.orders;
      items =
          ap (λ (w : World). w.rentals.items) whole
          ∙ ap (λ (w : World). w.rentals.items) e0
          ∙ c.items;
      next_id = ap (λ (w : World). w.next_id) whole ∙ ap (λ (w : World). w.next_id) e0 ∙ c.next_id;
      status_histories =
          ap (λ (w : World). w.rentals.status_histories) whole
          ∙ ap (λ (w : World). w.rentals.status_histories) e0
          ∙ c.status_histories;
      locks = ap (λ (w : World). w.locks) whole ∙ ap (λ (w : World). w.locks) e0 ∙ c.locks;
    }

-- A confirmation, whether it returns or throws, keeps the tables sound.
pub confirm_rental_order-Sound :
    (runtime : Runtime) (id : ℕ) (note : Option String) (user : ℕ) (w : World)
    → Sound w
    → Sound (confirm_rental_order runtime id note user w).1
unfolding confirm_rental_order modify pure emit_availability_changed
confirm_rental_order-Sound runtime id note user w s =
    let body = confirm_in_transaction runtime id note user in
    let w0 = record w { locks = [] } in
    let kept = transaction_keeps body w s (λ o h.
      confirmed-Sound runtime id note user w0 (body w0).1
        (confirm_in_transaction-ok runtime id note user w0 h) s) in
    bind_keeps (λ (w : World). Sound w) (transaction body) _ w kept
      (λ o h.
        bind_keeps (λ (w : World). Sound w) (modify _) _ (transaction body w).1 kept (λ u h. kept))
