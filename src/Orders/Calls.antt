-- ===== src/Orders/Calls.antt =====
-- The calls that write orders, as src/modules/rental-orders/rental-orders.controller.ts hands them to
-- the service.
pub mod Reachable
pub mod Atomic
use rental_be_nest.Prelude.{ℕ, String, Option, none, some, List}
use rental_be_nest.Exec.{Exec, pure, ◌>>=◌}
use rental_be_nest.World.{World}
use rental_be_nest.Orders.Tables.{RentalOrder}
use rental_be_nest.Orders.Service.{Runtime}
use rental_be_nest.Orders.Service.Create.{CreateRentalOrder, create_rental_order}
use rental_be_nest.Orders.Service.Update.{UpdateRentalOrder, update_rental_order}
use rental_be_nest.Orders.Service.Assign.{AssignIn, assign_rental_order_assets}
use rental_be_nest.Orders.Service.Confirm.{confirm_rental_order}
use rental_be_nest.Orders.Service.Cancel.{cancel_rental_order}
use rental_be_nest.Orders.Service.Delete.{delete_rental_orders}

pub data Call : Type 0 where
  create : (dto : CreateRentalOrder) (user : ℕ) → Call
  update : (id : ℕ) (dto : UpdateRentalOrder) (user : ℕ) → Call
  assign_assets : (id : ℕ) (items : List AssignIn) (user : ℕ) → Call
  confirm : (id : ℕ) (note : Option String) (user : ℕ) → Call
  cancel : (id : ℕ) (cancel_reason : String) (user : ℕ) → Call
  delete : (rental_order_ids : List ℕ) (user : ℕ) → Call

-- A deletion answers without an order.
abbrev pub answer : Exec World RentalOrder → Exec World (Option RentalOrder)
answer m = m >>= λ o. pure (some o)

unfoldable pub run : Runtime → Call → Exec World (Option RentalOrder)
unfolding create_rental_order update_rental_order assign_rental_order_assets confirm_rental_order
    cancel_rental_order delete_rental_orders
run runtime (create dto user) = answer (create_rental_order runtime dto user)
run runtime (update id dto user) = answer (update_rental_order runtime id dto user)
run runtime (assign_assets id items user) = answer (assign_rental_order_assets id items user)
run runtime (confirm id note user) = answer (confirm_rental_order runtime id note user)
run runtime (cancel id cancel_reason user) =
    answer (cancel_rental_order runtime id cancel_reason user)
run runtime (delete rental_order_ids user) =
    delete_rental_orders rental_order_ids user >>= λ u. pure none
