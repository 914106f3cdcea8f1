-- ===== src/Orders/Service/Cancel.antt =====
-- `cancelRentalOrder`.
use rental_be_nest.Prelude.{ℕ, String, some, List, [], ◌∷◌, if◌then◌else◌}
use rental_be_nest.Exec.{Exec, pure, reads, lift, modify, ◌>>=◌, ◌>>◌}
use rental_be_nest.World.{World, Customer, order_cancelled}
use rental_be_nest.SearchText.{build_rental_order_search_text}
use rental_be_nest.Orders.Tables.{
  OrderStatus, OrderEventType, RentalOrder, StatusHistory, OrderEvent, status_in,
  blocking_order_statuses,
}
use rental_be_nest.Orders.Service.Steps.{
  Runtime, find_existing_rental_order, items_of, assert_status_in, customer_of, update_order,
  log_transition, transaction, emit_availability_changed,
}

abbrev pub cancelable_statuses : List OrderStatus
cancelable_statuses =
    OrderStatus.draft ∷ OrderStatus.confirmed ∷ OrderStatus.preparing ∷ OrderStatus.ready_for_pickup
    ∷ OrderStatus.delivering ∷ []

module _ (runtime : Runtime) (id : ℕ) (cancel_reason : String) (user : ℕ) where
  unfoldable pub cancelled_order : RentalOrder → Customer → RentalOrder → RentalOrder
  unfolding build_rental_order_search_text
  cancelled_order existing customer o = record o {
    status = OrderStatus.cancelled;
    cancel_reason = some cancel_reason;
    search_text =
        build_rental_order_search_text runtime.normalize_search_text existing.code customer.name
          customer.phone customer.email customer.identity_number existing.delivery_address
          existing.note existing.internal_note (some cancel_reason);
  }

  abbrev pub cancel_history : RentalOrder → StatusHistory
  cancel_history existing = record {
    order_id = id;
    from_status = some existing.status;
    to_status = OrderStatus.cancelled;
    created_by = user;
    note = some cancel_reason;
  }

  abbrev pub cancel_event : OrderEvent
  cancel_event = record {
    order_id = id;
    type = OrderEventType.order_cancelled;
    message = cancel_reason;
    created_by = user;
  }

  -- The body of the transaction.
  unfoldable pub write_cancelled : RentalOrder → Customer → World → World
  unfolding cancelled_order log_transition update_order
  write_cancelled existing customer w =
      update_order id (cancelled_order existing customer)
        (log_transition (cancel_history existing) cancel_event w)

  -- The message goes out if the order blocked units before.
  unfoldable pub announce_cancelled : RentalOrder → World → World
  unfolding emit_availability_changed
  announce_cancelled existing w =
      if status_in existing.status blocking_order_statuses
      then emit_availability_changed order_cancelled (items_of id w.rentals.items) w
      else w

  unfoldable pub cancel_rental_order : Exec World RentalOrder
  unfolding write_cancelled announce_cancelled transaction
  cancel_rental_order = do
    existing ← reads (find_existing_rental_order id)
    lift (assert_status_in existing.status cancelable_statuses)
    customer ← reads (customer_of existing)
    transaction (modify (write_cancelled existing customer))
    modify (announce_cancelled existing)
    pure (cancelled_order existing customer existing)
