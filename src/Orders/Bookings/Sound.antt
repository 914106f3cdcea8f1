-- ===== src/Orders/Bookings/Sound.antt =====
-- How the parts of a call keep the tables sound.
use rental_be_nest.Prelude.{
  ℕ, ◌<◌, ◌≡◌, refl, sym, ap, ◌∙◌, subst, ◌⊎◌, inl, inr, true, false, some, [], map, Memᴰ, Memᴰ-map,
  Bool-cases, ◌==◌,
}
use rental_be_nest.Result.{Result, ok, err}
use rental_be_nest.Exec.{Exec, ◌>>=◌, bind_keeps}
use rental_be_nest.World.{World}
use rental_be_nest.World.Frames.{Frames}
use rental_be_nest.Orders.Tables.{RentalOrder, Rentals}
use rental_be_nest.Orders.Availability.{add_minutes}
use rental_be_nest.Orders.Booking.{find_order}
use rental_be_nest.Orders.Service.{transaction, settle}
use rental_be_nest.Orders.Bookings.{
  IsBooking, WasBooking, IsNewBooking, NoDoubleBooking-grows, BlockedEnds, IsSound, Sound, blocks,
}
use rental_be_nest.Orders.Bookings.Rows.{find_order-map, one_row}

pub Sound-same :
    (w w' : World) → w'.rentals ≡ w.rentals → w'.next_id ≡ w.next_id → Sound w → Sound w'
Sound-same w w' r n h =
    subst (λ k. IsSound w'.rentals k) (sym n) (subst (λ t. IsSound t w.next_id) (sym r) h)

pub transaction_keeps :
    {A : Type 0} (body : Exec World A) (w : World)
    → Sound w
    → ((a : A)
        → (body (record w { locks = [] })).0 ≡ ok a
        → Sound (body (record w { locks = [] })).1)
    → Sound (transaction body w).1
unfolding transaction
transaction_keeps {A} body w h k =
    go (body (record w { locks = [] })).0 (body (record w { locks = [] })).1 h k
  where
    go :
        (r : Result A) (w' : World)
        → Sound w
        → ((a : A) → r ≡ ok a → Sound w')
        → Sound (settle w (r, w')).1
    go (ok a) w' h k = k a refl
    go (err e) w' h k = h

-- A transaction that returns is its body, run without locks at first.
pub transaction-ok :
    {A : Type 0} (body : Exec World A) (w : World) {a : A}
    → (transaction body w).0 ≡ ok a
    → ((body (record w { locks = [] })).0 ≡ ok a)
      × ((transaction body w).1 ≡ (body (record w { locks = [] })).1)
unfolding transaction
transaction-ok {A} body w h =
    go (body (record w { locks = [] })).0 (body (record w { locks = [] })).1 h
  where
    go :
        (r : Result A) (w' : World) {a : A}
        → (settle w (r, w')).0 ≡ ok a
        → (r ≡ ok a) × ((settle w (r, w')).1 ≡ w')
    go (ok a) w' h = (h, refl)
    go (err e) w' h = cc

module _ {A B : Type 0} where
  -- A step that writes no order leaves the rest to be looked at.
  pub Frames-keeps :
      (m : Exec World A) (f : A → Exec World B) (w : World)
      → Frames m
      → Sound w
      → ((a : A) → (m w).0 ≡ ok a → Sound (f a (m w).1).1)
      → Sound ((m >>= f) w).1
  Frames-keeps m f w frames h k =
      bind_keeps (λ (w : World). Sound w) m f w
        (Sound-same w (m w).1 (frames.at w).rentals (frames.at w).next_id h) k

-- The unchanged version of a row is the same booking.
pub WasBooking-refl :
    {r r' : Rentals} {a : ℕ} {o : RentalOrder} (before : RentalOrder) (b : IsBooking r' a o)
    → Memᴰ b.item r.items
    → find_order b.item.order_id r.orders ≡ some before
    → o ≡ before
    → WasBooking r a o
WasBooking-refl before b mem found same = record {
  before = before;
  booking = record {
    item = b.item;
    mem = mem;
    names = b.names;
    live = b.live;
    of = found;
    blocking = subst (λ o. blocks o ≡ true) same b.blocking;
  };
  same = record {
    id = ap (λ (o : RentalOrder). o.id) same;
    start_date = ap (λ (o : RentalOrder). o.start_date) same;
    blocked_end_date = ap (λ (o : RentalOrder). o.blocked_end_date) same;
  };
}

module _ {A B : Type 0} where
  -- The same, with the tables after the step known to be sound.
  pub Frames-then :
      (m : Exec World A) (f : A → Exec World B) (w : World)
      → Frames m
      → Sound w
      → ((a : A) → (m w).0 ≡ ok a → Sound (m w).1 → Sound (f a (m w).1).1)
      → Sound ((m >>= f) w).1
  Frames-then m f w frames s k =
      let s' = Sound-same w (m w).1 (frames.at w).rentals (frames.at w).next_id s in
      bind_keeps (λ (w : World). Sound w) m f w s' (λ a h. k a h s')

abbrev pub EndsWell : RentalOrder → Type 0
EndsWell o = o.blocked_end_date ≡ add_minutes o.end_date o.turnaround_minutes

module _ (w w' : World) (g : RentalOrder → RentalOrder)
    (orders : w'.rentals.orders ≡ map g w.rentals.orders) where
  pub map-BlockedEnds :
      ((o : RentalOrder) → EndsWell o → EndsWell (g o)) → Sound w → BlockedEnds w'.rentals.orders
  map-BlockedEnds ends s o m =
      let (before, was, row) = Memᴰ-map g w.rentals.orders (subst (Memᴰ o) orders m) in
      subst EndsWell (sym row) (ends before (s.blocked_ends before was))

  pub map-below :
      w'.next_id ≡ w.next_id
      → ((o : RentalOrder) → (g o).id ≡ o.id)
      → Sound w
      → (o : RentalOrder) → Memᴰ o w'.rentals.orders
      → o.id < w'.next_id
  map-below next keeps s o m =
      let (before, was, row) = Memᴰ-map g w.rentals.orders (subst (Memᴰ o) orders m) in
      rw (next, row, keeps before) (s.orders_below before was)

-- What an update of orders' rows and of no item must show.
pub map-Sound :
    (w w' : World) (id : ℕ) (g : RentalOrder → RentalOrder)
    → w'.rentals.orders ≡ map g w.rentals.orders
    → w'.rentals.items ≡ w.rentals.items
    → w'.next_id ≡ w.next_id
    → ((o : RentalOrder) → (g o).id ≡ o.id)
    → ((o : RentalOrder) → EndsWell o → EndsWell (g o))
    → ((a : ℕ) (o : RentalOrder)
        → IsBooking w'.rentals a o
        → WasBooking w.rentals a o ⊎ IsNewBooking w.rentals id a o)
    → Sound w
    → Sound w'
map-Sound w w' id g orders items next keeps ends split s = record {
  no_double_booking = NoDoubleBooking-grows w.rentals w'.rentals id split s.no_double_booking;
  blocked_ends = map-BlockedEnds w w' g orders ends s;
  item_keys = λ i j m n e. s.item_keys i j (subst (Memᴰ i) items m) (subst (Memᴰ j) items n) e;
  items_below = λ i m. rw (next) (s.items_below i (subst (Memᴰ i) items m));
  orders_below = map-below w w' g orders next keeps s;
}

-- Where each changed row blocks nothing, each booking was there before.
pub released-Sound :
    (w w' : World) (id : ℕ) (g : RentalOrder → RentalOrder)
    → w'.rentals.orders ≡ map g w.rentals.orders
    → w'.rentals.items ≡ w.rentals.items
    → w'.next_id ≡ w.next_id
    → ((o : RentalOrder) → (g o).id ≡ o.id)
    → ((o : RentalOrder) → EndsWell o → EndsWell (g o))
    → ((o : RentalOrder) → (g o ≡ o) ⊎ (blocks (g o) ≡ false))
    → Sound w
    → Sound w'
released-Sound w w' id g orders items next keeps ends released s =
    map-Sound w w' id g orders items next keeps ends
      (λ a o b.
        let (before, found, row) =
          find_order-map b.item.order_id g w.rentals.orders keeps
            (subst (λ os. find_order b.item.order_id os ≡ some o) orders b.of) in
        let was_in = subst (Memᴰ b.item) items b.mem in
        elim (released before) [
          | inl same ↦ inl (WasBooking-refl before b was_in found (row ∙ same))
          | inr free ↦ absurd (cc (b.blocking, row, free))
        ])
      s

-- Every part of a row is as it was, or as the update makes it.
pub one_row_cases :
    (id : ℕ) (f : RentalOrder → RentalOrder) (o : RentalOrder)
    → (one_row id f o ≡ o) ⊎ (one_row id f o ≡ f o)
one_row_cases id f o = elim (Bool-cases (o.id == id)) [
  | inl t ↦ inr (rw (t) refl)
  | inr n ↦ inl (rw (n) refl)
]

pub one_row-EndsWell :
    (id : ℕ) (f : RentalOrder → RentalOrder)
    → ((o : RentalOrder) → EndsWell o → EndsWell (f o))
    → (o : RentalOrder) → EndsWell o
    → EndsWell (one_row id f o)
one_row-EndsWell id f ends o h = elim (one_row_cases id f o) [
  | inl same ↦ subst EndsWell (sym same) h
  | inr changed ↦ subst EndsWell (sym changed) (ends o h)
]
