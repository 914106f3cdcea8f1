-- ===== src/Orders/Service/Confirm.antt =====
-- `confirmRentalOrder` and `transitionOrderStatusInTransaction`.
use rental_be_nest.Prelude.{ℕ, String, Option, none, some, List, [], ◌∷◌, map, unique}
use rental_be_nest.Result.{ok}
use rental_be_nest.Exec.{Exec, pure, reads, lift, modify, ◌>>=◌, ◌>>◌}
use rental_be_nest.World.{World, LockKey, order_lock, product_lock, order_confirmed}
use rental_be_nest.Orders.Tables.{
  OrderStatus, OrderEventType, RentalOrder, OrderItem, StatusHistory, OrderEvent,
}
use rental_be_nest.Orders.Availability.{EvaluateParams, evaluate_availability}
use rental_be_nest.Orders.Service.Steps.{
  Runtime, find_existing_rental_order, items_of, assert_status_in, assert_available,
  normalize_existing_items, update_order, log_transition, transaction, acquire_advisory_locks,
  emit_availability_changed,
}

pub record Transition : Type 0 where
  pub order : RentalOrder
  pub next_status : OrderStatus
  pub current_user_id : ℕ
  pub note : Option String
  pub event_type : OrderEventType
  pub event_message : String

abbrev pub history_of : Transition → StatusHistory
history_of t = record {
  order_id = t.order.id;
  from_status = some t.order.status;
  to_status = t.next_status;
  created_by = t.current_user_id;
  note = t.note;
}

abbrev pub event_of : Transition → OrderEvent
event_of t = record {
  order_id = t.order.id;
  type = t.event_type;
  message = t.event_message;
  created_by = t.current_user_id;
}

abbrev pub with_status : OrderStatus → RentalOrder → RentalOrder
with_status status o = record o { status = status }

unfoldable pub transition_order_status : Transition → World → World
unfolding log_transition update_order
transition_order_status t w =
    update_order t.order.id (with_status t.next_status)
      (log_transition (history_of t) (event_of t) w)

-- The items of an order, as the availability check is asked about them.
unfoldable pub confirm_params : RentalOrder → List OrderItem → EvaluateParams
unfolding normalize_existing_items
confirm_params o items = record {
  start_date = o.start_date;
  end_date = o.end_date;
  items = normalize_existing_items items;
  exclude_order_id = some o.id;
  rental_policy = none;
  turnaround_minutes = some o.turnaround_minutes;
}

abbrev pub product_locks : List OrderItem → List LockKey
product_locks items = map product_lock (unique (map (λ (i : OrderItem). i.product_id) items))

abbrev pub confirming : RentalOrder → ℕ → Option String → Transition
confirming o user note = record {
  order = o;
  next_status = OrderStatus.confirmed;
  current_user_id = user;
  note = note;
  event_type = OrderEventType.order_confirmed;
  event_message = "Order confirmed";
}

module _ (runtime : Runtime) (id : ℕ) (note : Option String) (user : ℕ) where
  -- The body of the transaction.
  unfoldable pub confirm_in_transaction : Exec World RentalOrder
  unfolding confirm_params
  confirm_in_transaction = do
    modify (acquire_advisory_locks (order_lock id ∷ []))
    existing ← reads (find_existing_rental_order id)
    lift (assert_status_in existing.status (OrderStatus.draft ∷ []))
    items ← reads (λ w. ok (items_of id w.rentals.items))
    modify (acquire_advisory_locks (product_locks items))
    availability ← evaluate_availability runtime.clock (confirm_params existing items)
    lift (assert_available availability)
    modify (transition_order_status (confirming existing user note))
    pure (with_status OrderStatus.confirmed existing)

  unfoldable pub confirm_rental_order : Exec World RentalOrder
  unfolding confirm_in_transaction transaction emit_availability_changed transition_order_status
  confirm_rental_order = do
    order ← transaction confirm_in_transaction
    modify (λ w. emit_availability_changed order_confirmed (items_of id w.rentals.items) w)
    pure order
