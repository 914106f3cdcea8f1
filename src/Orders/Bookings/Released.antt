-- ===== src/Orders/Bookings/Released.antt =====
-- Cancelling and deleting orders keep the tables sound.
use rental_be_nest.Prelude.{
  ℕ, String, refl, inl, inr, List, [], includes, unique, Bool-cases, if◌then◌else◌, arith,
}
use rental_be_nest.Exec.{pure, reads, lift, modify, bind_keeps}
use rental_be_nest.World.{World, Customer}
use rental_be_nest.World.Frames.{Frames-reads, Frames-lift}
use rental_be_nest.Orders.Tables.{RentalOrder, status_in, blocking_order_statuses}
use rental_be_nest.Orders.Availability.{is_empty}
use rental_be_nest.Orders.Service.{
  Runtime, find_existing_rental_order, assert_status_in, customer_of, transaction,
  emit_availability_changed,
}
use rental_be_nest.Orders.Service.Cancel.{
  cancelable_statuses, cancelled_order, write_cancelled, announce_cancelled, cancel_rental_order,
}
use rental_be_nest.Orders.Service.Delete.{
  deleted_order, write_deleted, assert_soft_deletable, delete_rental_orders,
}
use rental_be_nest.Orders.Bookings.{Sound}
use rental_be_nest.Orders.Bookings.Rows.{one_row, one_row-id}
use rental_be_nest.Orders.Bookings.Sound.{
  transaction_keeps, Frames-keeps, released-Sound, one_row_cases, one_row-EndsWell,
}

module _ (runtime : Runtime) (id : ℕ) (cancel_reason : String) (user : ℕ) where
  write_cancelled-Sound :
      (existing : RentalOrder) (customer : Customer) (w : World)
      → Sound w
      → Sound (write_cancelled runtime id cancel_reason user existing customer w)
  unfolding write_cancelled cancelled_order status_in
  write_cancelled-Sound existing customer w s =
      let f = cancelled_order runtime id cancel_reason user existing customer in
      released-Sound w (write_cancelled runtime id cancel_reason user existing customer w) id
        (one_row id f) refl refl refl (one_row-id id f (λ o. refl))
        (one_row-EndsWell id f (λ o h. h))
        (λ o. elim (one_row_cases id f o) [
          | inl same ↦ inl same
          | inr changed ↦ inr (rw (changed) (ground arith))
        ])
        s

  announce_cancelled-Sound :
      (existing : RentalOrder) (w : World)
      → Sound w
      → Sound (announce_cancelled runtime id cancel_reason user existing w)
  unfolding announce_cancelled emit_availability_changed
  announce_cancelled-Sound existing w s =
      elim (Bool-cases (status_in existing.status blocking_order_statuses)) [
        | inl t ↦ rw (t) s
        | inr f ↦ rw (f) s
      ]

  -- A cancellation, whether it returns or throws, keeps the tables sound.
  pub cancel_rental_order-Sound :
      (w : World) → Sound w → Sound (cancel_rental_order runtime id cancel_reason user w).1
  unfolding cancel_rental_order reads lift modify pure
  cancel_rental_order-Sound w s =
      Frames-keeps (reads (find_existing_rental_order id)) _ w (Frames-reads _) s (λ existing h.
        Frames-keeps (lift (assert_status_in existing.status cancelable_statuses)) _ w
          (Frames-lift _) s
          (λ u h. Frames-keeps (reads (customer_of existing)) _ w (Frames-reads _) s (λ customer h.
            let write = modify (write_cancelled runtime id cancel_reason user existing customer) in
            let kept =
              transaction_keeps write w s
                (λ u h. write_cancelled-Sound existing customer (record w { locks = [] }) s) in
            bind_keeps (λ (w : World). Sound w) (transaction write) _ w kept
              (λ u h.
                let w' = (transaction write w).1 in
                let announced = announce_cancelled-Sound existing w' kept in
                bind_keeps (λ (w : World). Sound w)
                  (modify (announce_cancelled runtime id cancel_reason user existing)) _ w'
                  announced (λ u h. announced)))))

write_deleted-Sound :
    (ids : List ℕ) (user : ℕ) (w : World) → Sound w → Sound (write_deleted ids user w)
unfolding write_deleted
write_deleted-Sound ids user w s =
    let g = λ (o : RentalOrder). if includes ids o.id then deleted_order w.now user o else o in
    released-Sound w (write_deleted ids user w) 0 g refl refl refl
      (λ o. elim (Bool-cases (includes ids o.id)) [ inl t ↦ rw (t) refl | inr f ↦ rw (f) refl ])
      (λ o h. elim (Bool-cases (includes ids o.id)) [ inl t ↦ rw (t) h | inr f ↦ rw (f) h ])
      (λ o. elim (Bool-cases (includes ids o.id)) [
        | inl t ↦ inr (rw (t) refl)
        | inr f ↦ inl (rw (f) refl)
      ])
      s

-- A deletion, whether it returns or throws, keeps the tables sound.
pub delete_rental_orders-Sound :
    (rental_order_ids : List ℕ) (user : ℕ) (w : World)
    → Sound w
    → Sound (delete_rental_orders rental_order_ids user w).1
unfolding delete_rental_orders reads modify pure
delete_rental_orders-Sound rental_order_ids user w s =
    let ids = unique rental_order_ids in
    elim (Bool-cases (is_empty ids)) [
      | inl t ↦ rw (t) s
      | inr f ↦ rw (f) (
          Frames-keeps (reads (assert_soft_deletable ids)) _ w (Frames-reads _) s
            (λ u h. write_deleted-Sound ids user w s))
    ]
