-- ===== src/Orders/Calls/Reachable.antt =====
-- No sequence of calls books a unit twice.
use rental_be_nest.Prelude.{◌≤◌, ◌≡◌, sym, subst, none, some, [], arith, Memᴰ}
use rental_be_nest.Exec.{Exec, pure, ◌>>=◌, bind_keeps}
use rental_be_nest.World.{World}
use rental_be_nest.Orders.Service.{Runtime}
use rental_be_nest.Orders.Bookings.{NoDoubleBooking, IsSound, Sound}
use rental_be_nest.Orders.Bookings.Confirmed.{confirm_rental_order-Sound}
use rental_be_nest.Orders.Bookings.Assigned.{assign_rental_order_assets-Sound}
use rental_be_nest.Orders.Bookings.Created.{create_rental_order-Sound}
use rental_be_nest.Orders.Bookings.Updated.{update_rental_order-Sound}
use rental_be_nest.Orders.Bookings.Released.{cancel_rental_order-Sound, delete_rental_orders-Sound}
use rental_be_nest.Inventory.Calls.{StockCall, run_stock}
use rental_be_nest.Inventory.Calls.Elsewhere.{IsElsewhere, run_stock-IsElsewhere}
use rental_be_nest.Orders.Calls.{Call, create, update, assign_assets, confirm, cancel, delete, run}

then-Sound :
    {A B : Type 0} (m : Exec World A) (g : A → B) (w : World)
    → Sound (m w).1
    → Sound ((m >>= λ a. pure (g a)) w).1
unfolding pure
then-Sound m g w s = bind_keeps (λ (w : World). Sound w) m _ w s (λ a h. s)

-- Every call keeps the tables sound, whether it returns or throws: if no two live items of different
-- blocking orders with overlapping blocked periods name one asset unit, if each order's blocked
-- period ends its turnaround after its end, if items of one id belong to one order, and if the next id
-- is above all, then the same holds after the call.
pub run-Sound : (runtime : Runtime) (c : Call) (w : World) → Sound w → Sound (run runtime c w).1
unfolding run
run-Sound runtime (create dto user) w s =
    then-Sound _ some w (create_rental_order-Sound runtime dto user w s)
run-Sound runtime (update id dto user) w s =
    then-Sound _ some w (update_rental_order-Sound runtime id dto user w s)
run-Sound runtime (assign_assets id items user) w s =
    then-Sound _ some w (assign_rental_order_assets-Sound id items user w s)
run-Sound runtime (confirm id note user) w s =
    then-Sound _ some w (confirm_rental_order-Sound runtime id note user w s)
run-Sound runtime (cancel id cancel_reason user) w s =
    then-Sound _ some w (cancel_rental_order-Sound runtime id cancel_reason user w s)
run-Sound runtime (delete ids user) w s =
    then-Sound _ (λ u. none) w (delete_rental_orders-Sound ids user w s)

-- One step: a call on orders, a call on products or asset units, or anything that other parts of the
-- server do, which write no order and no item.
pub data Step (runtime : Runtime) : World → World → Type 0 where
  call : (c : Call) (w : World) → Step runtime w (run runtime c w).1
  stock :
      (c : StockCall) (w : World) → Step runtime w (run_stock runtime.normalize_search_text c w).1
  elsewhere : (w w' : World) → w'.rentals ≡ w.rentals → w.next_id ≤ w'.next_id → Step runtime w w'

-- The worlds that steps lead to from tables without orders.
pub data Reachable (runtime : Runtime) : World → Type 0 where
  start : (w : World) → w.rentals.orders ≡ [] → w.rentals.items ≡ [] → Reachable runtime w
  next : {w w' : World} → Reachable runtime w → Step runtime w w' → Reachable runtime w'

empty-Sound : (w : World) → w.rentals.orders ≡ [] → w.rentals.items ≡ [] → Sound w
empty-Sound w no_orders no_items = record {
  no_double_booking = λ a o p b c differ. absurd (none_in (subst (Memᴰ b.item) no_items b.mem));
  blocked_ends = λ o m. absurd (none_in (subst (Memᴰ o) no_orders m));
  item_keys = λ i j m n e. absurd (none_in (subst (Memᴰ i) no_items m));
  items_below = λ i m. absurd (none_in (subst (Memᴰ i) no_items m));
  orders_below = λ o m. absurd (none_in (subst (Memᴰ o) no_orders m));
}
  where
    none_in : {A : Type 0} {x : A} → Memᴰ x [] → ⊥
    none_in m = elim m [ ]

elsewhere-Sound : (w w' : World) → IsElsewhere w w' → Sound w → Sound w'
elsewhere-Sound w w' (same, grows) s =
    subst (λ r. IsSound r w'.next_id) (sym same)
      record {
        no_double_booking = s.no_double_booking;
        blocked_ends = s.blocked_ends;
        item_keys = s.item_keys;
        items_below = λ i m. let below = s.items_below i m in omega (arith, below, grows);
        orders_below = λ o m. let below = s.orders_below o m in omega (arith, below, grows);
      }

Step-Sound : (runtime : Runtime) {w w' : World} → Step runtime w w' → Sound w → Sound w'
Step-Sound runtime (call c w) s = run-Sound runtime c w s
Step-Sound runtime (stock c w) s =
    elsewhere-Sound w (run_stock runtime.normalize_search_text c w).1
      (run_stock-IsElsewhere runtime.normalize_search_text c w) s
Step-Sound runtime (elsewhere w w' same grows) s = elsewhere-Sound w w' (same, grows) s

pub Reachable-Sound : (runtime : Runtime) {w : World} → Reachable runtime w → Sound w
Reachable-Sound runtime (start w no_orders no_items) = empty-Sound w no_orders no_items
Reachable-Sound runtime (next r step) = Step-Sound runtime step (Reachable-Sound runtime r)

-- After any sequence of calls on orders, products and asset units from tables without orders, two live
-- items that name one asset unit and belong to different blocking orders have periods that do not
-- overlap, each period with its turnaround: one ends, blocked, no later than the other starts.
pub Reachable-NoDoubleBooking :
    (runtime : Runtime) (w : World) → Reachable runtime w → NoDoubleBooking w.rentals
Reachable-NoDoubleBooking runtime w r = (Reachable-Sound runtime r).no_double_booking
