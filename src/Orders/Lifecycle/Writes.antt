-- ===== src/Orders/Lifecycle/Writes.antt =====
-- What a call may do to the tables of orders and of status histories: nothing, rewrite rows, move the
-- status of one order and log it, or add an order and log that.
use rental_be_nest.Prelude.{
  ℕ, ◌≤◌, ◌<◌, ◌≡◌, refl, ap, ◌∙◌, true, none, some, List, [], ◌∷◌, ◌++◌, map, find, keep, includes,
  Memᴰ, keep-Memᴰ, every-Memᴰ, inl, inr, Bool-cases, arith, ◌==◌, if◌then◌else◌,
}
use rental_be_nest.Result.{Result, ok, err, require-ok}
use rental_be_nest.Exec.{Exec, bind_keeps, ◌>>=◌}
use rental_be_nest.World.{World}
use rental_be_nest.World.Frames.{Frames}
use rental_be_nest.Orders.Tables.{RentalOrder, OrderStatus, StatusHistory, Rentals, status_in}
use rental_be_nest.Orders.Service.{is_live_order, update_row, transaction, settle}
use rental_be_nest.Orders.Service.Delete.{
  soft_deletable_statuses, deleted_order, assert_soft_deletable, write_deleted,
}
use rental_be_nest.Orders.Bookings.Rows.{one_row, one_row-id}
use rental_be_nest.Orders.Lifecycle.{Moves, Evolves, Evolves-refl, is_live}
use rental_be_nest.Orders.Lifecycle.Rows.{HasKeys, one_row-Evolves}
use rental_be_nest.Orders.Lifecycle.Statuses.{deleted_order-Evolves}

-- The tables `r` and the next id `n` after a call that began in `v`.
pub data Change (v : World) (r : Rentals) (n : ℕ) : Type 0 where
  untouched :
      r.orders ≡ v.rentals.orders
      → r.status_histories ≡ v.rentals.status_histories
      → v.next_id ≤ n
      → Change v r n
  -- Rows are rewritten, and no status among them.
  rewritten :
      (g : RentalOrder → RentalOrder)
      → r.orders ≡ map g v.rentals.orders
      → ((o : RentalOrder) → (g o).id ≡ o.id)
      → ((o : RentalOrder) → (g o).status ≡ o.status)
      → (HasKeys v.rentals.orders → (o : RentalOrder) → Memᴰ o v.rentals.orders → Evolves o (g o))
      → r.status_histories ≡ v.rentals.status_histories
      → v.next_id ≤ n
      → Change v r n
  -- One live order gets another status, and one entry of the histories says so.
  moved :
      (id : ℕ) (f : RentalOrder → RentalOrder) (existing : RentalOrder) (entry : StatusHistory)
      → find (is_live_order id) v.rentals.orders ≡ some existing
      → r.orders ≡ update_row id f v.rentals.orders
      → ((o : RentalOrder) → (f o).id ≡ o.id)
      → (is_live existing ≡ true → Evolves existing (f existing))
      → Moves existing.status (f existing).status
      → r.status_histories ≡ v.rentals.status_histories ++ entry ∷ []
      → entry.order_id ≡ id
      → entry.from_status ≡ some existing.status
      → entry.to_status ≡ (f existing).status
      → v.next_id ≤ n
      → Change v r n
  added :
      (new : RentalOrder) (entry : StatusHistory)
      → new.id ≡ v.next_id
      → new.status ≡ OrderStatus.draft
      → r.orders ≡ v.rentals.orders ++ new ∷ []
      → r.status_histories ≡ v.rentals.status_histories ++ entry ∷ []
      → entry.order_id ≡ new.id
      → entry.from_status ≡ none
      → entry.to_status ≡ OrderStatus.draft
      → v.next_id < n
      → Change v r n

-- A change between two states.
abbrev pub Changes : World → World → Type 0
Changes v w = Change v w.rentals w.next_id

-- The same tables, next to which other parts of the state may differ.
abbrev pub SameRows : World → World → Type 0
SameRows v w = (w.rentals ≡ v.rentals) × (w.next_id ≡ v.next_id)

pub SameRows-Changes : (v w : World) → SameRows v w → Changes v w
SameRows-Changes v w (rows, next) =
    untouched (ap (λ (r : Rentals). r.orders) rows) (ap (λ (r : Rentals). r.status_histories) rows)
      (omega (arith, next))

module _ (v : World) where
  -- A step that writes no order leaves the rest to be looked at.
  pub Frames-Changes :
      {A B : Type 0} (m : Exec World A) (f : A → Exec World B) (w : World)
      → Frames m
      → SameRows v w
      → ((a : A) → (m w).0 ≡ ok a → SameRows v (m w).1 → Changes v (f a (m w).1).1)
      → Changes v ((m >>= f) w).1
  Frames-Changes m f w frames (rows, next) k =
      let same : SameRows v (m w).1 =
        ((frames.at w).rentals ∙ rows, (frames.at w).next_id ∙ next) in
      bind_keeps (λ (w : World). Changes v w) m f w (SameRows-Changes v (m w).1 same)
        (λ a h. k a h same)

  -- A transaction that throws leaves the table, one that returns is its body.
  pub transaction-Changes :
      {A : Type 0} (body : Exec World A) (w : World)
      → SameRows v w
      → ((a : A)
          → (body (record w { locks = [] })).0 ≡ ok a
          → Changes v (body (record w { locks = [] })).1)
      → Changes v (transaction body w).1
  unfolding transaction
  transaction-Changes {A} body w same k =
      go (body (record w { locks = [] })).0 (body (record w { locks = [] })).1 k
    where
      go :
          (r : Result A) (w' : World)
          → ((a : A) → r ≡ ok a → Changes v w')
          → Changes v (settle w (r, w')).1
      go (ok a) w' k = k a refl
      go (err e) w' k = SameRows-Changes v w same

  -- A write of the live row of an id, which leaves its status.
  pub row-Change :
      (id : ℕ) (f : RentalOrder → RentalOrder) (existing : RentalOrder) (r : Rentals) (n : ℕ)
      → find (is_live_order id) v.rentals.orders ≡ some existing
      → r.orders ≡ update_row id f v.rentals.orders
      → ((o : RentalOrder) → (f o).id ≡ o.id)
      → ((o : RentalOrder) → (f o).status ≡ o.status)
      → (is_live existing ≡ true → Evolves existing (f existing))
      → r.status_histories ≡ v.rentals.status_histories
      → v.next_id ≤ n
      → Change v r n
  row-Change id f existing r n found orders ids keeps evolves histories grows =
      rewritten (one_row id f) orders (one_row-id id f ids)
        (λ o. elim (Bool-cases (o.id == id)) [
          | inl here ↦ rw (here) (keeps o)
          | inr other ↦ rw (other) refl
        ])
        (λ keys o m. one_row-Evolves id f v.rentals.orders existing keys found evolves o m)
        histories grows

-- A deletion that is let through.
pub write_deleted-Changes :
    (ids : List ℕ) (user : ℕ) (w : World)
    → assert_soft_deletable ids w ≡ ok tt
    → Changes w (write_deleted ids user w)
unfolding write_deleted assert_soft_deletable
write_deleted-Changes ids user w h =
    let g = λ (o : RentalOrder). if includes ids o.id then deleted_order w.now user o else o in
    let deletable = λ (o : RentalOrder). status_in o.status soft_deletable_statuses in
    let named = λ (o : RentalOrder). includes ids o.id in
    let all = require-ok _ _ h in
    rewritten g refl
      (λ o. elim (Bool-cases (named o)) [ inl t ↦ rw (t) refl | inr f ↦ rw (f) refl ])
      (λ o. elim (Bool-cases (named o)) [ inl t ↦ rw (t) refl | inr f ↦ rw (f) refl ])
      (λ keys o m. elim (Bool-cases (named o)) [
        | inr f ↦ rw (f) (Evolves-refl o)
        | inl t ↦
            let checked =
              every-Memᴰ deletable (keep named w.rentals.orders) all
                (keep-Memᴰ named w.rentals.orders m t) in
            rw (t) (deleted_order-Evolves w.now user o checked)
      ])
      refl (omega arith)
