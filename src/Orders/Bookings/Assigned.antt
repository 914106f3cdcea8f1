-- ===== src/Orders/Bookings/Assigned.antt =====
-- What an assignment of asset units that returns has checked and written, and that it books no unit
-- twice.
use rental_be_nest.Prelude.{ℕ, ◌≡◌, ap, ◌∙◌, inl, inr, some, List, [], find, Bool-cases}
use rental_be_nest.Result.{ok, or_fail-ok}
use rental_be_nest.Exec.{pure, reads, lift, modify, reads-ok, lift-ok, modify-ok, bind_keeps}
use rental_be_nest.World.{World}
use rental_be_nest.World.Frames.{Frames-reads, Frames-lift}
use rental_be_nest.Orders.Tables.{RentalOrder, status_in, blocking_order_statuses}
use rental_be_nest.Orders.Service.{
  is_live_order, items_of, find_existing_rental_order, assert_status_in, acquire_advisory_locks,
  transaction, emit_availability_changed,
}
use rental_be_nest.Orders.Service.Assign.{
  AssignIn, asset_unit_ids_in, check_assignment, assign_asset_statuses, assign_locks,
  assert_none_booked, write_assigned, announce_assigned, assign_in_transaction,
  assign_rental_order_assets,
}
use rental_be_nest.Orders.Bookings.{Sound}
use rental_be_nest.Orders.Bookings.Sound.{Frames-keeps, transaction_keeps}
use rental_be_nest.Orders.Bookings.Assigning.{IsAssigning, assigned-Sound}

module _ (id : ℕ) (items : List AssignIn) (user : ℕ) where
  pub assign_in_transaction-ok :
      (existing : RentalOrder) (w : World) {o : RentalOrder}
      → find (is_live_order id) w.rentals.orders ≡ some existing
      → check_assignment existing items w ≡ ok tt
      → (assign_in_transaction id items user existing w).0 ≡ ok o
      → IsAssigning id items user w (assign_in_transaction id items user existing w).1
  unfolding assign_in_transaction acquire_advisory_locks write_assigned reads
      find_existing_rental_order
  assign_in_transaction-ok existing w found checked h =
      let keys = λ (w : World).
        assign_locks id (items_of existing.id w.rentals.items) (asset_unit_ids_in items) in
      let w1 = acquire_advisory_locks (keys w) w in
      let (h1, e1) = modify-ok (λ w. acquire_advisory_locks (keys w) w) _ w h in
      let (locked, _, h2, e2) = reads-ok (find_existing_rental_order id) _ w1 h1 in
      let (_, _, h3, e3) = lift-ok (assert_status_in locked.status assign_asset_statuses) _ w1 h2 in
      let (_, _, h4, e4) = reads-ok (assert_none_booked locked (asset_unit_ids_in items)) _ w1 h3 in
      let (h5, e5) = modify-ok (write_assigned id items user) _ w1 h4 in
      let whole = e1 ∙ e2 ∙ e3 ∙ e4 ∙ e5 in
      record {
        existing = existing;
        found = found;
        checked = checked;
        orders = ap (λ (w : World). w.rentals.orders) whole;
        items_after = ap (λ (w : World). w.rentals.items) whole;
        histories = ap (λ (w : World). w.rentals.status_histories) whole;
        next_id = ap (λ (w : World). w.next_id) whole;
        locks = ap (λ (w : World). w.locks) whole;
      }

  announce_assigned-Sound : (o : RentalOrder) (w : World) → Sound w → Sound (announce_assigned o w)
  unfolding announce_assigned emit_availability_changed
  announce_assigned-Sound o w s = elim (Bool-cases (status_in o.status blocking_order_statuses)) [
    | inl t ↦ rw (t) s
    | inr f ↦ rw (f) s
  ]

  -- An assignment, whether it returns or throws, keeps the tables sound.
  pub assign_rental_order_assets-Sound :
      (w : World) → Sound w → Sound (assign_rental_order_assets id items user w).1
  unfolding assign_rental_order_assets reads lift modify pure find_existing_rental_order
      check_assignment
  assign_rental_order_assets-Sound w s =
      Frames-keeps (reads (find_existing_rental_order id)) _ w (Frames-reads _) s (λ existing h.
        Frames-keeps (lift (assert_status_in existing.status assign_asset_statuses)) _ w
          (Frames-lift _) s
          (λ u h1.
            Frames-keeps (reads (check_assignment existing items)) _ w (Frames-reads _) s (λ u h2.
              let body = assign_in_transaction id items user existing in
              let w0 = record w { locks = [] } in
              let kept = transaction_keeps body w s (λ o ret.
                assigned-Sound id items user w0 (body w0).1
                  (assign_in_transaction-ok existing w0 (or_fail-ok _ _ h) h2 ret) s) in
              bind_keeps (λ (w : World). Sound w) (transaction body) _ w kept
                (λ o h.
                  let w' = (transaction body w).1 in
                  let announced = announce_assigned-Sound o w' kept in
                  bind_keeps (λ (w : World). Sound w) (modify (announce_assigned o)) _ w' announced
                    (λ u h. announced)))))
