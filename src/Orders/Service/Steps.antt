-- ===== src/Orders/Service/Steps.antt =====
-- Lookups, guards, transactions and locks of src/modules/rental-orders/rental-orders.service.ts.
use rental_be_nest.Prelude.{
  ℕ, String, Bool, true, false, ◌&&◌, ◌||◌, Option, none, some, List, [], ◌∷◌, ◌++◌, map, find,
  keep, filter_map, unique, length, ltb, leb, sort_by, ◌==◌, if◌then◌else◌,
}
use rental_be_nest.Result.{
  Result, ok, err, bad_request, not_found, require, or_fail, rental_order_not_found,
  rental_order_customer_invalid, rental_order_assigned_user_invalid, rental_order_product_invalid,
  rental_order_status_transition_invalid, rental_order_unavailable, record_not_found,
}
use rental_be_nest.World.{
  World, Customer, CustomerStatus, User, UserActivityStatus, LockKey, order_lock, product_lock,
  asset_lock, ChangeReason,
}
use rental_be_nest.Catalog.{Product, is_null}
use rental_be_nest.Catalog.Queries.{get_active_products_for_rental}
use rental_be_nest.Orders.Tables.{
  OrderStatus, RentalOrder, OrderItem, NormalizedItem, StatusHistory, OrderEvent, CustomerSnapshot,
  status_in,
}
use rental_be_nest.Orders.Availability.{Availability, product_ids_of}
use rental_be_nest.Store.Hours.{WallClock}

-- What the server's environment gives: its wall clock, and Unicode normalisation.
pub record Runtime : Type 0 where
  pub clock : WallClock
  pub normalize_search_text : String → String

-- `findFirst({ where: { id, deletedAt: null } })`
abbrev pub is_live_order : ℕ → RentalOrder → Bool
is_live_order id o = o.id == id && is_null o.deleted_at

unfoldable pub find_existing_rental_order : ℕ → World → Result RentalOrder
find_existing_rental_order id w =
    or_fail (find (is_live_order id) w.rentals.orders) (not_found rental_order_not_found)

-- The items that `rentalOrderInclude` joins to an order, in the order of their creation.
unfoldable pub items_of : ℕ → List OrderItem → List OrderItem
items_of id items = keep (λ i. i.order_id == id) items

unfoldable pub assert_status_in : OrderStatus → List OrderStatus → Result (Unit {0})
assert_status_in status allowed =
    require (status_in status allowed) (bad_request rental_order_status_transition_invalid)

unfoldable pub assert_available : Availability → Result (Unit {0})
assert_available a =
    require a.is_available (bad_request (rental_order_unavailable a.unavailable_items))

abbrev is_not_blocked : CustomerStatus → Bool
is_not_blocked CustomerStatus.blocked = false
is_not_blocked CustomerStatus.active = true
is_not_blocked CustomerStatus.inactive = true

unfoldable pub find_customer_for_rental : ℕ → World → Result Customer
find_customer_for_rental customer_id w =
    or_fail
      (find
        (λ (c : Customer). c.id == customer_id && is_null c.deleted_at && is_not_blocked c.status)
        w.customers)
      (bad_request rental_order_customer_invalid)

-- The customer that an order is joined to; the foreign key says that there is one.
unfoldable pub customer_of : RentalOrder → World → Result Customer
customer_of o w =
    or_fail (find (λ (c : Customer). c.id == o.customer_id) w.customers)
      (not_found record_not_found)

abbrev is_active_user : UserActivityStatus → Bool
is_active_user UserActivityStatus.active = true
is_active_user UserActivityStatus.banned = false
is_active_user UserActivityStatus.locked = false
is_active_user UserActivityStatus.inactive = false

unfoldable pub find_assigned_user_for_rental : Option ℕ → World → Result (Option ℕ)
find_assigned_user_for_rental none w = ok none
find_assigned_user_for_rental (some id) w =
    elim (find
      (λ (u : User). u.id == id && is_null u.deleted_at && is_active_user u.activity_status)
      w.users) [
        | none ↦ err (bad_request rental_order_assigned_user_invalid)
        | some u ↦ ok (some u.id)
      ]

unfoldable pub find_products_for_items : List NormalizedItem → World → Result (List Product)
find_products_for_items items w =
    let ids = product_ids_of items in
    let products = get_active_products_for_rental ids w.catalog.products in
    if length products == length ids
    then ok products
    else err (bad_request rental_order_product_invalid)

-- `RentalOrderItemInDto`
pub record ItemIn : Type 0 where
  pub product_id : ℕ
  pub asset_unit_id : Option ℕ
  pub note : Option String

abbrev normalized : ItemIn → NormalizedItem
normalized i = record {
  id = none;
  product_id = i.product_id;
  asset_unit_id = i.asset_unit_id;
  note = i.note;
}

unfoldable pub normalize_items : List ItemIn → List NormalizedItem
normalize_items items = map normalized items

abbrev pub normalized_existing : OrderItem → NormalizedItem
normalized_existing i = record {
  id = some i.id;
  product_id = i.product_id;
  asset_unit_id = i.asset_unit_id;
  note = i.note;
}

unfoldable pub normalize_existing_items : List OrderItem → List NormalizedItem
normalize_existing_items items = map normalized_existing items

-- `rentalOrder.update({ where: { id }, data })`
abbrev pub update_row : ℕ → (RentalOrder → RentalOrder) → List RentalOrder → List RentalOrder
update_row id f orders = map (λ o. if o.id == id then f o else o) orders

unfoldable pub update_order : ℕ → (RentalOrder → RentalOrder) → World → World
update_order id f w = record w {
  rentals = record w.rentals { orders = update_row id f w.rentals.orders };
}

abbrev pub snapshot : Customer → CustomerSnapshot
snapshot c = record {
  name = c.name;
  phone = c.phone;
  email = c.email;
  address = c.address;
  identity_number = c.identity_number;
}

-- The two rows that a change of status leaves behind it.
unfoldable pub log_transition : StatusHistory → OrderEvent → World → World
log_transition history event w = record w {
  rentals = record w.rentals {
    status_histories = w.rentals.status_histories ++ history ∷ [];
    events = w.rentals.events ++ event ∷ [];
  };
}

-- A transaction that throws leaves the orders' tables as they were; what Redis holds stays. Ids
-- drawn for rows that were not kept may be drawn again.
abbrev pub settle {ℓ} : {A : Type ℓ} → World → Result A × World → Result A × World
settle before (ok a, w) = (ok a, w)
settle before (err e, w) = (err e, record w { rentals = before.rentals; next_id = before.next_id })

unfoldable pub transaction {ℓ} :
    {A : Type ℓ} → (World → Result A × World) → World → Result A × World
transaction body w = settle w (body (record w { locks = [] }))

-- The texts of the keys compare first by their prefix, `rental-asset` before `rental-order` before
-- `rental-product`, and then by the id.
abbrev pub lock_rank : LockKey → ℕ
lock_rank (asset_lock id) = 0
lock_rank (order_lock id) = 1
lock_rank (product_lock id) = 2

abbrev pub lock_id : LockKey → ℕ
lock_id (asset_lock id) = id
lock_id (order_lock id) = id
lock_id (product_lock id) = id

abbrev pub lock_le : LockKey → LockKey → Bool
lock_le a b =
    ltb (lock_rank a) (lock_rank b) || (lock_rank a == lock_rank b && leb (lock_id a) (lock_id b))

abbrev same_lock : LockKey → LockKey → Bool
same_lock a b = lock_rank a == lock_rank b && lock_id a == lock_id b

abbrev has_lock : LockKey → List LockKey → Bool
has_lock k [] = false
has_lock k (j ∷ js) = same_lock j k || has_lock k js

-- `[...new Set(keys)]`, of which the last occurrence stays here; the sort below forgets the place.
unfoldable pub distinct_locks : List LockKey → List LockKey
distinct_locks [] = []
distinct_locks (k ∷ ks) = if has_lock k ks then distinct_locks ks else k ∷ distinct_locks ks

unfoldable pub acquire_advisory_locks : List LockKey → World → World
unfolding distinct_locks
acquire_advisory_locks keys w = record w {
  locks = w.locks ++ sort_by lock_le (distinct_locks keys);
}

-- `emitAvailabilityChanged` of
-- src/modules/rental-orders/services/rental-order-realtime.service.ts
unfoldable pub emit_availability_changed : ChangeReason → List OrderItem → World → World
emit_availability_changed reason items w = record w {
  messages =
      w.messages
      ++ record {
        reason = reason;
        product_ids = unique (map (λ (i : OrderItem). i.product_id) items);
        asset_unit_ids = unique (filter_map (λ (i : OrderItem). i.asset_unit_id) items);
      }
        ∷ [];
}
