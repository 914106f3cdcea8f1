-- ===== src/Orders/Service.antt =====
-- src/modules/rental-orders/rental-orders.service.ts: the private helpers that the operations share.
-- The operations are the modules below.
mod Steps
pub mod Create
pub mod Update
pub mod Assign
pub mod Confirm
pub mod Cancel
pub mod Delete
pub use Steps.*
unfoldable pub use Steps.{
  find_existing_rental_order, items_of, assert_status_in, assert_available, update_order,
  find_customer_for_rental, customer_of, find_assigned_user_for_rental, find_products_for_items,
  normalize_items, normalize_existing_items, log_transition, transaction, distinct_locks,
  acquire_advisory_locks, emit_availability_changed,
}
