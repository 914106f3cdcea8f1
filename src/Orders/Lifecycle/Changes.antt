-- ===== src/Orders/Lifecycle/Changes.antt =====
-- Confirming, cancelling, assigning and deleting, as changes of the tables.
use rental_be_nest.Prelude.{
  ℕ, refl, sym, subst, arith, String, Option, List, [], unique, Bool-cases, inl, inr,
}
use rental_be_nest.Result.{or_fail-ok, require-ok}
use rental_be_nest.Exec.{Exec, pure, reads, lift, modify, bind_keeps, ◌>>=◌, ◌>>◌}
use rental_be_nest.World.{World}
use rental_be_nest.World.Frames.{Frames-reads, Frames-lift}
use rental_be_nest.Orders.Tables.{RentalOrder, OrderStatus, status_in, blocking_order_statuses}
use rental_be_nest.Orders.Availability.{is_empty}
use rental_be_nest.Orders.Service.{
  Runtime, find_existing_rental_order, assert_status_in, customer_of, transaction,
  emit_availability_changed,
}
use rental_be_nest.Orders.Service.Assign.{
  AssignIn, assign_asset_statuses, check_assignment, updated_by, announce_assigned,
  assign_in_transaction, assign_rental_order_assets,
}
use rental_be_nest.Orders.Service.Confirm.{
  with_status, history_of, confirming, confirm_in_transaction, confirm_rental_order,
}
use rental_be_nest.Orders.Service.Cancel.{
  cancelable_statuses, cancelled_order, cancel_history, write_cancelled, announce_cancelled,
  cancel_rental_order,
}
use rental_be_nest.Orders.Service.Delete.{assert_soft_deletable, delete_rental_orders}
use rental_be_nest.Orders.Bookings.Rows.{find_live-id}
use rental_be_nest.Orders.Bookings.Confirming.{confirm_in_transaction-ok}
use rental_be_nest.Orders.Bookings.Assigned.{assign_in_transaction-ok}
use rental_be_nest.Orders.Lifecycle.{Moves, stays, goes}
use rental_be_nest.Orders.Lifecycle.Statuses.{is_draft_status, cancel-Moves, live_row-Evolves}
use rental_be_nest.Orders.Lifecycle.Writes.{
  Change, moved, Changes, SameRows, SameRows-Changes, Frames-Changes, transaction-Changes,
  row-Change, write_deleted-Changes,
}

-- What follows a transaction writes no order.
pub then-Changes :
    {A B : Type 0} (v : World) (m : Exec World A) (f : A → Exec World B) (w : World)
    → ((a : A) (s : World) → SameRows s (f a s).1)
    → Changes v (m w).1
    → Changes v ((m >>= f) w).1
then-Changes v m f w same change =
    bind_keeps (λ (w : World). Changes v w) m f w change
      (λ a h.
        let s = (m w).1 in
        let (rows, next) = same a s in
        subst (λ n. Change v (f a s).1.rentals n) (sym next)
          (subst (λ r. Change v r s.next_id) (sym rows) change))

announced_same :
    {A : Type 0} (g : World → World) (a : A)
    → ((s : World) → SameRows s (g s))
    → (s : World) → SameRows s ((modify g >> pure a) s).1
unfolding ◌>>=◌
announced_same g a same s = same s

announce_cancelled-same :
    (runtime : Runtime) (id : ℕ) (cancel_reason : String) (user : ℕ) (existing : RentalOrder)
    (s : World)
    → SameRows s (announce_cancelled runtime id cancel_reason user existing s)
unfolding announce_cancelled emit_availability_changed
announce_cancelled-same runtime id cancel_reason user existing s =
    elim (Bool-cases (status_in existing.status blocking_order_statuses)) [
      | inl t ↦ rw (t) (refl, refl)
      | inr f ↦ rw (f) (refl, refl)
    ]

announce_assigned-same : (o : RentalOrder) (s : World) → SameRows s (announce_assigned o s)
unfolding announce_assigned emit_availability_changed
announce_assigned-same o s = elim (Bool-cases (status_in o.status blocking_order_statuses)) [
  | inl t ↦ rw (t) (refl, refl)
  | inr f ↦ rw (f) (refl, refl)
]

module _ (runtime : Runtime) (w : World) where
  pub confirm_rental_order-Changes :
      (id : ℕ) (note : Option String) (user : ℕ)
      → Changes w (confirm_rental_order runtime id note user w).1
  unfolding confirm_rental_order ◌>>=◌ emit_availability_changed
  confirm_rental_order-Changes id note user =
      let body = confirm_in_transaction runtime id note user in
      then-Changes w (transaction body) _ w (λ o s. (refl, refl))
        (transaction-Changes w body w (refl, refl)
          (λ o h.
            let w0 = record w { locks = [] } in
            let c = confirm_in_transaction-ok runtime id note user w0 h in
            let e = c.existing in
            let move : Moves e.status OrderStatus.confirmed =
              subst (λ s. Moves s OrderStatus.confirmed)
                (sym (is_draft_status e.status c.was_draft)) Moves.confirms in
            moved id (with_status OrderStatus.confirmed) e (history_of (confirming e user note))
              c.found c.orders (λ o. refl)
              (live_row-Evolves e (with_status OrderStatus.confirmed e) refl refl
                (goes move (stays OrderStatus.confirmed)) (λ d. refl) refl)
              move c.status_histories (find_live-id id w.rentals.orders c.found) refl refl
              (let next = c.next_id in omega (arith, next))))

  pub cancel_rental_order-Changes :
      (id : ℕ) (cancel_reason : String) (user : ℕ)
      → Changes w (cancel_rental_order runtime id cancel_reason user w).1
  unfolding cancel_rental_order reads lift modify write_cancelled find_existing_rental_order
      assert_status_in cancelled_order
  cancel_rental_order-Changes id cancel_reason user =
      Frames-Changes w (reads (find_existing_rental_order id)) _ w (Frames-reads _) (refl, refl)
        (λ existing found same.
          Frames-Changes w (lift (assert_status_in existing.status cancelable_statuses)) _ w
            (Frames-lift _) same
            (λ u allowed same.
              Frames-Changes w (reads (customer_of existing)) _ w (Frames-reads _) same
                (λ customer _ same.
                  let move = cancel-Moves existing.status (require-ok _ _ allowed) in
                  let f = cancelled_order runtime id cancel_reason user existing customer in
                  let body =
                    modify (write_cancelled runtime id cancel_reason user existing customer) in
                  then-Changes w (transaction body) _ w
                    (λ o.
                      announced_same _ _
                        (announce_cancelled-same runtime id cancel_reason user existing))
                    (transaction-Changes w body w (refl, refl)
                      (λ o h.
                        moved id f existing (cancel_history runtime id cancel_reason user existing)
                          (or_fail-ok _ _ found) refl (λ o. refl)
                          (live_row-Evolves existing (f existing) refl refl
                            (goes move (stays OrderStatus.cancelled)) (λ d. refl) refl)
                          move refl refl refl refl (omega arith))))))

  pub assign_rental_order_assets-Changes :
      (id : ℕ) (items : List AssignIn) (user : ℕ)
      → Changes w (assign_rental_order_assets id items user w).1
  unfolding assign_rental_order_assets reads lift find_existing_rental_order check_assignment
  assign_rental_order_assets-Changes id items user =
      Frames-Changes w (reads (find_existing_rental_order id)) _ w (Frames-reads _) (refl, refl)
        (λ existing found same.
          Frames-Changes w (lift (assert_status_in existing.status assign_asset_statuses)) _ w
            (Frames-lift _) same
            (λ u allowed same.
              Frames-Changes w (reads (check_assignment existing items)) _ w (Frames-reads _) same
                (λ u checked same.
                  let body = assign_in_transaction id items user existing in
                  let live = or_fail-ok _ _ found in
                  then-Changes w (transaction body) _ w
                    (λ o. announced_same _ _ (announce_assigned-same o))
                    (transaction-Changes w body w (refl, refl)
                      (λ o h.
                        let w0 = record w { locks = [] } in
                        let c = assign_in_transaction-ok id items user existing w0 live checked h in
                        row-Change w id (updated_by user) c.existing (body w0).1.rentals
                          (body w0).1.next_id c.found c.orders (λ o. refl) (λ o. refl)
                          (live_row-Evolves c.existing (updated_by user c.existing) refl refl
                            (stays c.existing.status) (λ d. refl) refl)
                          c.histories (let next = c.next_id in omega (arith, next)))))))

  pub delete_rental_orders-Changes :
      (ids : List ℕ) (user : ℕ) → Changes w (delete_rental_orders ids user w).1
  unfolding delete_rental_orders reads modify pure
  delete_rental_orders-Changes rental_order_ids user =
      let ids = unique rental_order_ids in
      elim (Bool-cases (is_empty ids)) [
        | inl t ↦ rw (t) (SameRows-Changes w w (refl, refl))
        | inr f ↦ rw (f) (
            Frames-Changes w (reads (assert_soft_deletable ids)) _ w (Frames-reads _) (refl, refl)
              (λ u h same. write_deleted-Changes ids user w h))
      ]
