-- ===== src/Orders/Service/Delete.antt =====
-- `deleteRentalOrders`.
use rental_be_nest.Prelude.{
  ℕ, some, List, [], ◌∷◌, map, keep, includes, unique, every, if◌then◌else◌,
}
use rental_be_nest.Result.{Result, require, bad_request, rental_order_status_transition_invalid}
use rental_be_nest.Exec.{Exec, pure, reads, modify, ◌>>=◌}
use rental_be_nest.World.{World}
use rental_be_nest.Orders.Tables.{OrderStatus, RentalOrder, status_in}
use rental_be_nest.Orders.Availability.{is_empty}

abbrev pub soft_deletable_statuses : List OrderStatus
soft_deletable_statuses = OrderStatus.draft ∷ OrderStatus.cancelled ∷ []

abbrev pub deleted_order : ℕ → ℕ → RentalOrder → RentalOrder
deleted_order now user o = record o { deleted_at = some now; deleted_by = some user }

-- `updateMany({ where: { id: { in: ids } }, data })`
abbrev pub update_rows : List ℕ → (RentalOrder → RentalOrder) → List RentalOrder → List RentalOrder
update_rows ids f orders = map (λ o. if includes ids o.id then f o else o) orders

unfoldable pub write_deleted : List ℕ → ℕ → World → World
write_deleted ids user w = record w {
  rentals = record w.rentals {
    orders = update_rows ids (deleted_order w.now user) w.rentals.orders;
  };
}

-- The loop of `assertStatusIn` over the orders that the ids name, those deleted before included.
unfoldable pub assert_soft_deletable : List ℕ → World → Result (Unit {0})
assert_soft_deletable ids w =
    require
      (every (λ (o : RentalOrder). status_in o.status soft_deletable_statuses)
        (keep (λ (o : RentalOrder). includes ids o.id) w.rentals.orders))
      (bad_request rental_order_status_transition_invalid)

unfoldable pub delete_rental_orders : List ℕ → ℕ → Exec World (Unit {0})
unfolding write_deleted assert_soft_deletable
delete_rental_orders rental_order_ids user =
    let ids = unique rental_order_ids in
    let write = reads (assert_soft_deletable ids) >>= λ _. modify (write_deleted ids user) in
    if is_empty ids then pure tt else write
