-- ===== src/World.antt =====
-- The state that the services share: the database tables, the cached keys, the messages sent to
-- admins' sockets, and the advisory locks of the transaction at hand. A call runs to its end before
-- the next begins; the time of a call and the ids that the database draws are part of the state.
pub mod Frames
use rental_be_nest.Prelude.{ℕ, String, Option, List, [], ◌∷◌, ◌++◌}
use rental_be_nest.Catalog.{Catalog}
use rental_be_nest.Store.Cache.{Redis}
use rental_be_nest.Store.Policy.{PolicyState}
use rental_be_nest.Store.Hours.{HoursState}
use rental_be_nest.Store.Closures.{StoreClosure}
use rental_be_nest.Orders.{Rentals}

pub data CustomerStatus : Type 0 where
  active inactive blocked : CustomerStatus

pub record Customer : Type 0 where
  pub id : ℕ
  pub name : String
  pub phone : Option String
  pub email : Option String
  pub address : Option String
  pub identity_number : Option String
  pub status : CustomerStatus
  pub deleted_at : Option ℕ

pub data UserActivityStatus : Type 0 where
  active banned locked inactive : UserActivityStatus

pub record User : Type 0 where
  pub id : ℕ
  pub email : String
  pub full_name : String
  pub activity_status : UserActivityStatus
  pub deleted_at : Option ℕ

-- `EAvailabilityChangeReason`
pub data ChangeReason : Type 0 where
  order_confirmed order_updated order_cancelled : ChangeReason
  asset_created asset_updated asset_deleted product_updated : ChangeReason

-- The broadcast `AVAILABILITY_CHANGED`.
pub record AvailabilityChanged : Type 0 where
  pub reason : ChangeReason
  pub product_ids : List ℕ
  pub asset_unit_ids : List ℕ

-- The keys `rental-order:…`, `rental-product:…` and `rental-asset:…`.
pub data LockKey : Type 0 where
  order_lock product_lock asset_lock : ℕ → LockKey

pub record World : Type 0 where
  pub catalog : Catalog
  pub customers : List Customer
  pub users : List User
  pub policy : PolicyState
  pub hours : HoursState
  pub closures : List StoreClosure
  pub rentals : Rentals
  pub redis : Redis
  pub messages : List AvailabilityChanged
  pub locks : List LockKey
  pub now : ℕ
  pub next_id : ℕ
