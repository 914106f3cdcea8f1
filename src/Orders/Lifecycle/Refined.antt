-- ===== src/Orders/Lifecycle/Refined.antt =====
-- The calls refine the life of an order, over any number of steps of the server.
use rental_be_nest.Prelude.{ℕ, ap, arith, ◌≡◌, refl, sym, subst, none, some, List, [], ◌∷◌}
use rental_be_nest.Exec.{Exec, pure, ◌>>=◌}
use rental_be_nest.World.{World}
use rental_be_nest.Orders.Tables.{RentalOrder, Rentals}
use rental_be_nest.Orders.Service.{Runtime}
use rental_be_nest.Orders.Bookings.{Sound}
use rental_be_nest.Orders.Calls.{Call, create, update, assign_assets, confirm, cancel, delete, run}
use rental_be_nest.Orders.Calls.Reachable.{
  Step, call, stock, elsewhere, Reachable, start, next, Reachable-Sound,
}
use rental_be_nest.Inventory.Calls.Elsewhere.{run_stock-IsElsewhere}
use rental_be_nest.Orders.Lifecycle.{Evolution}
use rental_be_nest.Orders.Bookings.Rows.{one_row, one_row-id}
use rental_be_nest.Orders.Lifecycle.Rows.{
  HasKeys, Evolution-refl, Evolution-trans, map-HasKeys, map-Evolution, append-HasKeys,
  append-Evolution, one_row-Evolves,
}
use rental_be_nest.Orders.Lifecycle.Writes.{Change, untouched, rewritten, moved, added, Changes}
use rental_be_nest.Orders.Lifecycle.Changes.{
  then-Changes, confirm_rental_order-Changes, cancel_rental_order-Changes,
  assign_rental_order_assets-Changes, delete_rental_orders-Changes,
}
use rental_be_nest.Orders.Lifecycle.Drafts.{
  update_rental_order-Changes, create_rental_order-Changes,
}

no_rows-HasKeys : (os : List RentalOrder) → os ≡ [] → HasKeys os
no_rows-HasKeys [] h o p m n e = elim m [ ]
no_rows-HasKeys (x ∷ os) h o p m n e = cc

-- A change keeps the ids apart, and evolves the table.
Change-Evolution :
    (v : World) (r : Rentals) (n : ℕ)
    → Change v r n
    → Sound v
    → HasKeys v.rentals.orders
    → HasKeys r.orders × Evolution v.rentals.orders r.orders
Change-Evolution v r n (untouched orders histories grows) sound keys = (
  subst HasKeys (sym orders) keys,
  subst (Evolution v.rentals.orders) (sym orders) (Evolution-refl v.rentals.orders),
)
Change-Evolution v r n (rewritten g orders ids keeps evolves histories grows) sound keys = (
  subst HasKeys (sym orders) (map-HasKeys g v.rentals.orders ids keys),
  subst (Evolution v.rentals.orders) (sym orders) (map-Evolution g v.rentals.orders (evolves keys)),
)
Change-Evolution v r n
      (moved id f existing entry found orders ids evolves move histories of_it from to grows) sound
      keys =
    (
      subst HasKeys (sym orders)
          (map-HasKeys (one_row id f) v.rentals.orders (one_row-id id f ids) keys),
      subst (Evolution v.rentals.orders) (sym orders) (
          map-Evolution (one_row id f) v.rentals.orders
            (one_row-Evolves id f v.rentals.orders existing keys found evolves)),
    )
Change-Evolution v r n (added new entry fresh draft orders histories of_it from to grows) sound
      keys =
    (
      subst HasKeys (sym orders) (
          append-HasKeys v.rentals.orders new
            (λ o m. let low = sound.orders_below o m in omega (arith, low, fresh)) keys),
      subst (Evolution v.rentals.orders) (sym orders) (append-Evolution v.rentals.orders new draft),
    )

module _ (runtime : Runtime) where
  answer-Changes :
      {A B : Type 0} (m : Exec World A) (g : A → B) (w : World)
      → Changes w (m w).1
      → Changes w ((m >>= λ a. pure (g a)) w).1
  unfolding pure
  answer-Changes m g w change = then-Changes w m (λ a. pure (g a)) w (λ a s. (refl, refl)) change

  run-Changes : (c : Call) (w : World) → Changes w (run runtime c w).1
  unfolding run
  run-Changes (create dto user) w =
      answer-Changes _ some w (create_rental_order-Changes runtime w dto user)
  run-Changes (update id dto user) w =
      answer-Changes _ some w (update_rental_order-Changes runtime w id dto user)
  run-Changes (assign_assets id items user) w =
      answer-Changes _ some w (assign_rental_order_assets-Changes runtime w id items user)
  run-Changes (confirm id note user) w =
      answer-Changes _ some w (confirm_rental_order-Changes runtime w id note user)
  run-Changes (cancel id cancel_reason user) w =
      answer-Changes _ some w (cancel_rental_order-Changes runtime w id cancel_reason user)
  run-Changes (delete ids user) w =
      answer-Changes _ (λ u. none) w (delete_rental_orders-Changes runtime w ids user)

  pub Step-Changes : {w w' : World} → Step runtime w w' → Changes w w'
  Step-Changes (call c w) = run-Changes c w
  Step-Changes (stock c w) =
      let (same, grows) = run_stock-IsElsewhere runtime.normalize_search_text c w in
      untouched (ap (λ (r : Rentals). r.orders) same)
        (ap (λ (r : Rentals). r.status_histories) same) grows
  Step-Changes (elsewhere w w' same grows) =
      untouched (ap (λ (r : Rentals). r.orders) same)
        (ap (λ (r : Rentals). r.status_histories) same) grows

  -- An id stands in one row of every world that steps lead to.
  pub Reachable-HasKeys : {w : World} → Reachable runtime w → HasKeys w.rentals.orders
  Reachable-HasKeys (start w no_orders no_items) = no_rows-HasKeys w.rentals.orders no_orders
  Reachable-HasKeys (next r step) =
      (Change-Evolution _ _ _ (Step-Changes step) (Reachable-Sound runtime r)
        (Reachable-HasKeys r)).0

-- Any number of steps of the server.
pub data Steps (runtime : Runtime) : World → World → Type 0 where
  none_yet : (w : World) → Steps runtime w w
  more : {u v w : World} → Steps runtime u v → Step runtime v w → Steps runtime u w

module _ (runtime : Runtime) where
  pub Steps-Reachable :
      {u v : World} → Reachable runtime u → Steps runtime u v → Reachable runtime v
  Steps-Reachable r (none_yet w) = r
  Steps-Reachable r (more steps step) = next (Steps-Reachable r steps) step

-- Over any number of steps from a world that the server reaches, every row of the table of orders
-- stays in its place and lives as an order may: its id and its code stay; its status goes from draft
-- to confirmed, or to cancelled from draft, confirmed, preparing, ready for pickup or delivering, and
-- nowhere else; customer, dates, turnaround and totals are fixed once it is no draft; once deleted it
-- stays deleted, with its status, and when it is deleted it is a draft or cancelled. Rows that were
-- not there stand after these and began as drafts.
pub Steps-Evolution :
    (runtime : Runtime) {w w' : World}
    → Reachable runtime w
    → Steps runtime w w'
    → Evolution w.rentals.orders w'.rentals.orders
Steps-Evolution runtime r (none_yet w) = Evolution-refl w.rentals.orders
Steps-Evolution runtime r (more steps step) =
    let there = Steps-Reachable runtime r steps in
    Evolution-trans (Steps-Evolution runtime r steps)
      (Change-Evolution _ _ _ (Step-Changes runtime step) (Reachable-Sound runtime there)
        (Reachable-HasKeys runtime there)).1
