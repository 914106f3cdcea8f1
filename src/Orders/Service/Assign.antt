-- ===== src/Orders/Service/Assign.antt =====
-- `assignRentalOrderAssets`.
use rental_be_nest.Prelude.{
  ℕ, Bool, false, not, ◌&&◌, Option, none, some, List, [], ◌∷◌, ◌++◌, map, every, any, includes,
  unique, length, map_get, ◌==◌, if◌then◌else◌,
}
use rental_be_nest.Result.{Result, require, bad_request, rental_order_asset_unit_invalid}
use rental_be_nest.Exec.{Exec, pure, reads, lift, modify, ◌>>=◌, ◌>>◌}
use rental_be_nest.World.{World, LockKey, order_lock, asset_lock, order_updated}
use rental_be_nest.Catalog.{AssetUnit}
use rental_be_nest.Catalog.Queries.{get_assignable_asset_units}
use rental_be_nest.Orders.Tables.{
  OrderStatus, RentalOrder, OrderItem, status_in, blocking_order_statuses,
}
use rental_be_nest.Orders.Booking.{get_booked_asset_unit_ids}
use rental_be_nest.Orders.Service.Steps.{
  find_existing_rental_order, items_of, assert_status_in, update_order, transaction,
  acquire_advisory_locks, emit_availability_changed,
}
use rental_be_nest.Orders.Service.Confirm.{product_locks}

-- An entry of `AssignRentalOrderAssetsDto`.
pub record AssignIn : Type 0 where
  pub item_id : ℕ
  pub asset_unit_id : ℕ

abbrev pub assign_asset_statuses : List OrderStatus
assign_asset_statuses = OrderStatus.draft ∷ OrderStatus.confirmed ∷ OrderStatus.preparing ∷ []

abbrev pub asset_unit_ids_in : List AssignIn → List ℕ
asset_unit_ids_in items = map (λ (i : AssignIn). i.asset_unit_id) items

-- The test of the first loop, for one entry.
abbrev pub same_product : Option OrderItem → Option AssetUnit → Bool
same_product none unit = false
same_product (some item) none = false
same_product (some item) (some unit) = item.product_id == unit.product_id

abbrev pub can_assign : List OrderItem → List AssetUnit → List ℕ → AssignIn → Bool
can_assign items units booked i =
    same_product (map_get (λ (o : OrderItem). o.id) items i.item_id)
      (map_get (λ (u : AssetUnit). u.id) units i.asset_unit_id)
    && not (includes booked i.asset_unit_id)

-- The units that other orders hold in the order's period.
unfoldable pub booked_by_others : RentalOrder → List ℕ → World → List ℕ
booked_by_others o ids w =
    get_booked_asset_unit_ids w.rentals ids o.start_date o.blocked_end_date (some o.id)

-- The checks ahead of the transaction.
unfoldable pub check_assignment : RentalOrder → List AssignIn → World → Result (Unit {0})
unfolding booked_by_others
check_assignment existing items w =
    let ids = asset_unit_ids_in items in
    let units = get_assignable_asset_units ids w.catalog.asset_units in
    let booked = booked_by_others existing ids w in
    require
      (length units == length (unique ids)
        && every (can_assign (items_of existing.id w.rentals.items) units booked) items)
      (bad_request rental_order_asset_unit_invalid)

-- The keys that the transaction locks.
unfoldable pub assign_locks : ℕ → List OrderItem → List ℕ → List LockKey
assign_locks id items ids = order_lock id ∷ (product_locks items ++ map asset_lock ids)

unfoldable pub assert_none_booked : RentalOrder → List ℕ → World → Result (Unit {0})
unfolding booked_by_others
assert_none_booked locked ids w =
    require (not (any (includes (booked_by_others locked ids w)) ids))
      (bad_request rental_order_asset_unit_invalid)

-- `rentalOrderItem.update({ where: { id: itemId }, data: { assetUnitId } })`, and its loop
abbrev pub assign_item : AssignIn → OrderItem → OrderItem
assign_item i row =
    if row.id == i.item_id then record row { asset_unit_id = some i.asset_unit_id } else row

unfoldable pub assign_items : List AssignIn → List OrderItem → List OrderItem
assign_items [] rows = rows
assign_items (i ∷ is) rows = assign_items is (map (assign_item i) rows)

abbrev pub updated_by : ℕ → RentalOrder → RentalOrder
updated_by user o = record o { updated_by = some user }

unfoldable pub write_assigned : ℕ → List AssignIn → ℕ → World → World
unfolding assign_items update_order
write_assigned id items user w =
    update_order id (updated_by user)
      (record w { rentals = record w.rentals { items = assign_items items w.rentals.items } })

-- The message goes out if the order blocks units.
unfoldable pub announce_assigned : RentalOrder → World → World
unfolding emit_availability_changed
announce_assigned o w =
    if status_in o.status blocking_order_statuses
    then emit_availability_changed order_updated (items_of o.id w.rentals.items) w
    else w

module _ (id : ℕ) (items : List AssignIn) (user : ℕ) where
  -- The body of the transaction.
  unfoldable pub assign_in_transaction : RentalOrder → Exec World RentalOrder
  unfolding assign_locks assert_none_booked write_assigned
  assign_in_transaction existing = do
    modify (λ w.
        acquire_advisory_locks
          (assign_locks id (items_of existing.id w.rentals.items) (asset_unit_ids_in items)) w)
    locked ← reads (find_existing_rental_order id)
    lift (assert_status_in locked.status assign_asset_statuses)
    reads (assert_none_booked locked (asset_unit_ids_in items))
    modify (write_assigned id items user)
    reads (find_existing_rental_order id)

  unfoldable pub assign_rental_order_assets : Exec World RentalOrder
  unfolding check_assignment assign_in_transaction announce_assigned transaction
  assign_rental_order_assets = do
    existing ← reads (find_existing_rental_order id)
    lift (assert_status_in existing.status assign_asset_statuses)
    reads (check_assignment existing items)
    order ← transaction (assign_in_transaction existing)
    modify (announce_assigned order)
    pure order
