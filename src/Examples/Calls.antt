-- ===== src/Examples/Calls.antt =====
-- The calls, from a request to a confirmed order.
use rental_be_nest.Prelude.{◌≡◌, refl, none, List, [], ◌∷◌, Memᴰ, IsSorted, unique}
use rental_be_nest.Result.{ok, not_found, rental_order_not_found}
use rental_be_nest.Exec.{◌>>=◌}
use rental_be_nest.World.{World}
use rental_be_nest.Catalog.Queries.{
  get_active_products_for_rental, get_assignable_asset_units, count_assignable_asset_units,
}
use rental_be_nest.Store.Hours.{assert_rental_time_within_business_hours}
use rental_be_nest.Store.Hours.Clock.{to_minutes}
use rental_be_nest.Store.Closures.{assert_no_closure_overlap}
use rental_be_nest.Orders.{OrderStatus, RentalOrder, status_in}
use rental_be_nest.Orders.Booking.{
  get_booked_asset_unit_ids, get_booked_quantity, is_booked, find_order, blocking_order_where,
}
use rental_be_nest.Orders.Availability.{evaluate_availability, add_minutes}
use rental_be_nest.Orders.Service.{
  find_existing_rental_order, assert_status_in, items_of, assert_available, acquire_advisory_locks,
  lock_le,
}
use rental_be_nest.Orders.Service.Confirm.{
  with_status, confirm_in_transaction, confirm_rental_order,
}
use rental_be_nest.Orders.Service.Assign.{
  AssignIn, check_assignment, assign_in_transaction, updated_by,
}
use rental_be_nest.Orders.Service.Delete.{delete_rental_orders, assert_soft_deletable}
use rental_be_nest.Orders.Bookings.Deleted.{delete_rental_orders-IsBooking}
use rental_be_nest.Orders.Bookings.{IsBooking, NoDoubleBooking, Sound}
use rental_be_nest.Orders.Bookings.Confirming.{IsConfirmed}
use rental_be_nest.Orders.Bookings.Confirmed.{confirm_rental_order-IsConfirmed}
use rental_be_nest.Orders.Calls.{create, confirm, run}
use rental_be_nest.Orders.Calls.Reachable.{
  Reachable, start, next, call, Reachable-Sound, run-Sound, Reachable-NoDoubleBooking,
}
use rental_be_nest.Orders.Lifecycle.{Evolution}
use rental_be_nest.Orders.Lifecycle.Refined.{more, none_yet, Steps-Evolution}
use rental_be_nest.Orders.Lifecycle.Audit.{IsAudited, no_entries, Steps-IsAudited}
use rental_be_nest.Orders.Calls.Atomic.{run-error}
use rental_be_nest.Orders.Locks.{Locking-IsSorted, assigning}
use rental_be_nest.Examples.Data.{runtime, shop, request, draft, draft_item, drafted}

abbrev after_create : World
after_create = (run runtime (create request 7) shop).1

abbrev after_confirm : World
after_confirm = (run runtime (confirm 100 none 7) after_create).1

after_create-Reachable : Reachable runtime after_create
after_create-Reachable = next (start shop refl refl) (call (create request 7) shop)

Reachable-NoDoubleBooking_example : NoDoubleBooking after_confirm.rentals
Reachable-NoDoubleBooking_example =
    Reachable-NoDoubleBooking runtime after_confirm
      (next after_create-Reachable (call (confirm 100 none 7) after_create))

-- A draft, confirmed.
Steps-Evolution_example : Evolution after_create.rentals.orders after_confirm.rentals.orders
Steps-Evolution_example =
    Steps-Evolution runtime after_create-Reachable
      (more (none_yet after_create) (call (confirm 100 none 7) after_create))

-- Nothing is ordered yet, and nothing logged.
shop-IsAudited : IsAudited shop
shop-IsAudited = record { orders = λ o m. elim m [ ]; unused = λ id h. no_entries }

-- An order that is created and confirmed: two entries.
Steps-IsAudited_example : IsAudited after_confirm
Steps-IsAudited_example =
    Steps-IsAudited runtime (start shop refl refl)
      (more (more (none_yet shop) (call (create request 7) shop))
        (call (confirm 100 none 7) after_create))
      shop-IsAudited

run-Sound_example : Sound after_confirm
run-Sound_example =
    run-Sound runtime (confirm 100 none 7) after_create
      (Reachable-Sound runtime after_create-Reachable)

run-error_example : (run runtime (confirm 999 none 7) drafted).1.rentals ≡ drafted.rentals
unfolding run ◌>>=◌ find_existing_rental_order acquire_advisory_locks
run-error_example =
    run-error runtime (confirm 999 none 7) drafted (not_found rental_order_not_found) refl

confirmed :
    (confirm_rental_order runtime 100 none 7 drafted).0
    ≡ ok (with_status OrderStatus.confirmed draft)
unfolding confirm_rental_order ◌>>=◌ find_existing_rental_order acquire_advisory_locks
    assert_status_in items_of assert_available evaluate_availability
    assert_rental_time_within_business_hours to_minutes assert_no_closure_overlap
    get_active_products_for_rental get_assignable_asset_units count_assignable_asset_units
    get_booked_asset_unit_ids get_booked_quantity is_booked status_in unique add_minutes find_order
    blocking_order_where
confirmed = refl

confirm_rental_order-IsConfirmed_example :
    IsConfirmed runtime 100 7 none
      (record drafted { locks = [] })
      (confirm_rental_order runtime 100 none 7 drafted).1
confirm_rental_order-IsConfirmed_example =
    confirm_rental_order-IsConfirmed runtime 100 none 7 drafted
      (with_status OrderStatus.confirmed draft) confirmed

confirmed_body :
    (confirm_in_transaction runtime 100 none 7 drafted).0
    ≡ ok (with_status OrderStatus.confirmed draft)
unfolding confirm_in_transaction ◌>>=◌ find_existing_rental_order acquire_advisory_locks
    assert_status_in items_of assert_available evaluate_availability
    assert_rental_time_within_business_hours to_minutes assert_no_closure_overlap
    get_active_products_for_rental get_assignable_asset_units count_assignable_asset_units
    get_booked_asset_unit_ids get_booked_quantity is_booked status_in unique add_minutes find_order
    blocking_order_where
confirmed_body = refl

abbrev other_unit : List AssignIn
other_unit = record { item_id = 101; asset_unit_id = 21 } ∷ []

checked : check_assignment draft other_unit drafted ≡ ok tt
unfolding check_assignment get_assignable_asset_units items_of get_booked_asset_unit_ids unique
    is_booked find_order blocking_order_where status_in
checked = refl

assigned : (assign_in_transaction 100 other_unit 7 draft drafted).0 ≡ ok (updated_by 7 draft)
unfolding assign_in_transaction ◌>>=◌ find_existing_rental_order acquire_advisory_locks
    assert_status_in items_of get_booked_asset_unit_ids unique is_booked find_order
    blocking_order_where status_in
assigned = refl

Locking-IsSorted_example :
    IsSorted lock_le (assign_in_transaction 100 other_unit 7 draft drafted).1.locks
Locking-IsSorted_example =
    Locking-IsSorted runtime drafted (assign_in_transaction 100 other_unit 7 draft)
      (updated_by 7 draft) refl (assigning 100 other_unit 7 draft refl checked) assigned

abbrev other_draft : RentalOrder
other_draft = record draft { id = 200 }

abbrev with_other_draft : World
with_other_draft = record drafted {
  rentals = record drafted.rentals {
    orders = with_status OrderStatus.confirmed draft ∷ other_draft ∷ [];
  };
}

held : IsBooking with_other_draft.rentals 20 (with_status OrderStatus.confirmed draft)
unfolding find_order status_in
held = record {
  item = draft_item;
  mem = Memᴰ.head refl;
  names = refl;
  live = refl;
  of = refl;
  blocking = refl;
}

deleted : (delete_rental_orders (200 ∷ []) 7 with_other_draft).0 ≡ ok tt
unfolding delete_rental_orders ◌>>=◌ assert_soft_deletable status_in unique
deleted = refl

delete_rental_orders-IsBooking_example :
    IsBooking
      (delete_rental_orders (200 ∷ []) 7 with_other_draft).1.rentals
      20
      (with_status OrderStatus.confirmed draft)
delete_rental_orders-IsBooking_example =
    delete_rental_orders-IsBooking (200 ∷ []) 7 with_other_draft 20
      (with_status OrderStatus.confirmed draft) deleted held
