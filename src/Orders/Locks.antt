-- ===== src/Orders/Locks.antt =====
-- The order in which `confirmRentalOrder` and `assignRentalOrderAssets` take their locks.
use rental_be_nest.Prelude.{
  ℕ, String, ◌≡◌, refl, sym, ap, ◌∙◌, subst, Bool, true, false, Option, some, find, List, unique,
  [], ◌∷◌, ◌++◌, map, every, sort_by, insert_sorted, IsSorted, sort_by-IsSorted, arith, ◌==◌,
}
use rental_be_nest.Result.{ok}
use rental_be_nest.Exec.{Exec}
use rental_be_nest.World.{World, LockKey, order_lock, product_lock}
use rental_be_nest.Orders.Tables.{RentalOrder, OrderItem}
use rental_be_nest.Orders.Service.{
  Runtime, lock_le, lock_rank, distinct_locks, is_live_order, items_of,
}
use rental_be_nest.Orders.Service.Confirm.{confirm_in_transaction}
use rental_be_nest.Orders.Service.Assign.{
  AssignIn, assign_in_transaction, check_assignment, assign_locks, asset_unit_ids_in,
}
use rental_be_nest.Orders.Bookings.Assigned.{assign_in_transaction-ok}
use rental_be_nest.Orders.Bookings.Confirming.{confirm_in_transaction-ok}

lock_le-total : (a b : LockKey) → lock_le a b ≡ false → lock_le b a ≡ true
lock_le-total a b h = ground (arith, h)

abbrev is_product : LockKey → Bool
is_product k = lock_rank k == 2

every-insert_sorted :
    (k : LockKey) (ks : List LockKey)
    → is_product k ≡ true
    → every is_product ks ≡ true
    → every is_product (insert_sorted lock_le k ks) ≡ true
unfolding insert_sorted
every-insert_sorted k [] h e = ground (arith, h)
every-insert_sorted k (j ∷ ks) h e = ground (arith, h, e, every-insert_sorted k ks h)

every-sort_by :
    (ks : List LockKey) → every is_product ks ≡ true → every is_product (sort_by lock_le ks) ≡ true
unfolding sort_by
every-sort_by [] h = refl
every-sort_by (k ∷ ks) h =
    every-insert_sorted k (sort_by lock_le ks) (ground (arith, h))
      (every-sort_by ks (ground (arith, h)))

every-distinct_locks :
    (ks : List LockKey) → every is_product ks ≡ true → every is_product (distinct_locks ks) ≡ true
unfolding distinct_locks
every-distinct_locks [] h = refl
every-distinct_locks (k ∷ ks) h = ground (arith, h, every-distinct_locks ks)

every-product_lock : (ids : List ℕ) → every is_product (map product_lock ids) ≡ true
every-product_lock [] = refl
every-product_lock (id ∷ ids) = every-product_lock ids

order_first :
    (id : ℕ) (ks : List LockKey)
    → every is_product ks ≡ true
    → IsSorted lock_le ks
    → IsSorted lock_le (order_lock id ∷ ks)
order_first id [] h s = tt
order_first id (k ∷ ks) h s = (ground (arith, h), s)

-- The transaction of a confirmation that returns has taken its locks in the order of their keys: the
-- order's first, then its products' in ascending order.
confirm_in_transaction-IsSorted :
    (runtime : Runtime) (id : ℕ) (note : Option String) (user : ℕ) (w : World) (o : RentalOrder)
    → w.locks ≡ []
    → (confirm_in_transaction runtime id note user w).0 ≡ ok o
    → IsSorted lock_le (confirm_in_transaction runtime id note user w).1.locks
unfolding sort_by distinct_locks
confirm_in_transaction-IsSorted runtime id note user w o unlocked h =
    let c = confirm_in_transaction-ok runtime id note user w h in
    let ids = unique (map (λ (i : OrderItem). i.product_id) (items_of id w.rentals.items)) in
    let ks = distinct_locks (map product_lock ids) in
    let sorted =
      order_first id (sort_by lock_le ks)
        (every-sort_by ks (every-distinct_locks (map product_lock ids) (every-product_lock ids)))
        (sort_by-IsSorted lock_le lock_le-total ks) in
    let locks = c.locks ∙ ap (λ ls. (ls ++ order_lock id ∷ []) ++ sort_by lock_le ks) unlocked in
    subst (IsSorted lock_le) (sym locks) sorted

-- The transaction of an assignment that returns has taken its locks in the order of their keys: the
-- asset units', the order's, and the products', each kind in ascending order.
assign_in_transaction-IsSorted :
    (id : ℕ) (items : List AssignIn) (user : ℕ) (existing : RentalOrder) (w : World)
    (o : RentalOrder)
    → w.locks ≡ []
    → find (is_live_order id) w.rentals.orders ≡ some existing
    → check_assignment existing items w ≡ ok tt
    → (assign_in_transaction id items user existing w).0 ≡ ok o
    → IsSorted lock_le (assign_in_transaction id items user existing w).1.locks
assign_in_transaction-IsSorted id items user existing w o unlocked found checked h =
    let c = assign_in_transaction-ok id items user existing w found checked h in
    let keys = assign_locks id (items_of c.existing.id w.rentals.items) (asset_unit_ids_in items) in
    let locks : (assign_in_transaction id items user existing w).1.locks
        ≡ sort_by lock_le (distinct_locks keys) =
      c.locks ∙ ap (λ ls. ls ++ sort_by lock_le (distinct_locks keys)) unlocked in
    subst (IsSorted lock_le) (sym locks)
      (sort_by-IsSorted lock_le lock_le-total (distinct_locks keys))

-- The transactions that take locks: a confirmation, and an assignment that has passed its checks.
pub data Locking (runtime : Runtime) (w : World) : Exec World RentalOrder → Type 0 where
  confirming :
      (id : ℕ) (note : Option String) (user : ℕ)
      → Locking runtime w (confirm_in_transaction runtime id note user)
  assigning :
      (id : ℕ) (items : List AssignIn) (user : ℕ) (existing : RentalOrder)
      → find (is_live_order id) w.rentals.orders ≡ some existing
      → check_assignment existing items w ≡ ok tt
      → Locking runtime w (assign_in_transaction id items user existing)

-- A transaction that takes advisory locks and returns, begun without locks, has taken them in
-- ascending order of their keys.
pub Locking-IsSorted :
    (runtime : Runtime) (w : World) (m : Exec World RentalOrder) (o : RentalOrder)
    → w.locks ≡ []
    → Locking runtime w m
    → (m w).0 ≡ ok o
    → IsSorted lock_le (m w).1.locks
Locking-IsSorted runtime w m o unlocked (confirming id note user) h =
    confirm_in_transaction-IsSorted runtime id note user w o unlocked h
Locking-IsSorted runtime w m o unlocked (assigning id items user existing found checked) h =
    assign_in_transaction-IsSorted id items user existing w o unlocked found checked h
