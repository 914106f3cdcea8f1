-- ===== src/Orders/Lifecycle/Audit.antt =====
-- The histories of the statuses (`rentalOrderStatusHistory`) against the orders themselves.
use rental_be_nest.Prelude.{
  ℕ, ◌≤◌, ◌≡◌, refl, sym, ap, subst, ◌∙◌, Option, none, some, List, [], ◌∷◌, ◌++◌, Memᴰ, Memᴰ-map,
  Memᴰ-append, Memᴰ-single, Memᴰ-find, arith, inl, inr, Bool-cases, ==_iff, ◌==◌,
}
use rental_be_nest.World.{World}
use rental_be_nest.Orders.Tables.{RentalOrder, OrderStatus, StatusHistory}
use rental_be_nest.Orders.Service.{Runtime, is_live_order}
use rental_be_nest.Orders.Bookings.{Sound}
use rental_be_nest.Orders.Bookings.Rows.{one_row, find_live-id}
use rental_be_nest.Orders.Calls.Reachable.{Reachable, Reachable-Sound}
use rental_be_nest.Orders.Lifecycle.{Moves}
use rental_be_nest.Orders.Lifecycle.Rows.{HasKeys}
use rental_be_nest.Orders.Lifecycle.Writes.{Change, untouched, rewritten, moved, added}
use rental_be_nest.Orders.Lifecycle.Refined.{
  Steps, none_yet, more, Step-Changes, Reachable-HasKeys, Steps-Reachable,
}

-- The entries of an id, in the order of their logging, and the status they lead to: the first says
-- that the order was created as a draft, and each later one moves it from where the one before left it.
pub data Trail (id : ℕ) : List StatusHistory → Option OrderStatus → Type 0 where
  no_entries : Trail id [] none
  of_another :
      {hs : List StatusHistory} {s : Option OrderStatus} (h : StatusHistory)
      → ¬ (h.order_id ≡ id)
      → Trail id hs s
      → Trail id (hs ++ h ∷ []) s
  begins :
      {hs : List StatusHistory} (h : StatusHistory)
      → h.order_id ≡ id
      → h.from_status ≡ none
      → h.to_status ≡ OrderStatus.draft
      → Trail id hs none
      → Trail id (hs ++ h ∷ []) (some OrderStatus.draft)
  moves :
      {hs : List StatusHistory} {s t : OrderStatus} (h : StatusHistory)
      → h.order_id ≡ id
      → h.from_status ≡ some s
      → h.to_status ≡ t
      → Moves s t
      → Trail id hs (some s)
      → Trail id (hs ++ h ∷ []) (some t)

-- The trail of every order ends in its status, and an id that is not drawn yet has no entry.
pub record IsAudited (w : World) : Type 0 where
  pub orders :
      (o : RentalOrder)
      → Memᴰ o w.rentals.orders
      → Trail o.id w.rentals.status_histories (some o.status)
  pub unused : (id : ℕ) → w.next_id ≤ id → Trail id w.rentals.status_histories none

-- A trail, given other spellings of its id, its entries and its end.
as_Trail :
    {id id' : ℕ} {hs hs' : List StatusHistory} {s s' : Option OrderStatus}
    → id' ≡ id
    → hs' ≡ hs
    → s' ≡ s
    → Trail id hs s
    → Trail id' hs' s'
as_Trail {id} {id'} {hs} {hs'} {s} {s'} i h e t =
    subst (λ j. Trail j hs' s') (sym i)
      (subst (λ l. Trail id l s') (sym h) (subst (Trail id hs) (sym e) t))

module _ (v : World) (keys : HasKeys v.rentals.orders) (audited : IsAudited v) where
  -- An order of the table after a move.
  moved-Trail :
      (id : ℕ) (f : RentalOrder → RentalOrder) (existing : RentalOrder) (entry : StatusHistory)
      (p : RentalOrder)
      → Memᴰ existing v.rentals.orders
      → existing.id ≡ id
      → ((o : RentalOrder) → (f o).id ≡ o.id)
      → Moves existing.status (f existing).status
      → entry.order_id ≡ id
      → entry.from_status ≡ some existing.status
      → entry.to_status ≡ (f existing).status
      → Memᴰ p v.rentals.orders
      → Trail
          (one_row id f p).id
          (v.rentals.status_histories ++ entry ∷ [])
          (some (one_row id f p).status)
  moved-Trail id f existing entry p there its_id ids move of_it from to m =
      elim (Bool-cases (p.id == id)) [
        | inr other ↦
            let different : ¬ (entry.order_id ≡ p.id) =
              λ e. let it = (==_iff p.id id).1 (sym e ∙ of_it) in cc in
            rw (other) (of_another entry different (audited.orders p m))
        | inl here ↦
            let at = (==_iff p.id id).0 here in
            let it = keys p existing m there (at ∙ sym its_id) in
            rw (here) (
              as_Trail (ids p ∙ at) refl (ap (λ o. some (f o).status) it) (
                moves entry of_it from to move
                  (as_Trail (sym its_id) refl refl (audited.orders existing there))))
      ]

  Change-IsAudited : (w : World) → Sound v → Change v w.rentals w.next_id → IsAudited w
  Change-IsAudited w sound (untouched orders histories grows) = record {
    orders = λ o m. as_Trail refl histories refl (audited.orders o (subst (Memᴰ o) orders m));
    unused = λ id h. as_Trail refl histories refl (audited.unused id (omega (arith, h, grows)));
  }
  Change-IsAudited w sound (rewritten g orders ids statuses evolves histories grows) = record {
    orders = λ o m.
        let (p, mp, ep) = Memᴰ-map g v.rentals.orders (subst (Memᴰ o) orders m) in
        as_Trail (ap (λ (o : RentalOrder). o.id) ep ∙ ids p) histories
          (ap (λ (o : RentalOrder). some o.status) ep ∙ ap some (statuses p)) (audited.orders p mp);
    unused = λ id h. as_Trail refl histories refl (audited.unused id (omega (arith, h, grows)));
  }
  Change-IsAudited w sound
        (moved id f existing entry found orders ids evolves move histories of_it from to grows) =
      let there = (Memᴰ-find (is_live_order id) v.rentals.orders found).0 in
      let its_id = find_live-id id v.rentals.orders found in
      let low = sound.orders_below existing there in
      record {
        orders = λ o m.
            let (p, mp, ep) = Memᴰ-map (one_row id f) v.rentals.orders (subst (Memᴰ o) orders m) in
            as_Trail (ap (λ (o : RentalOrder). o.id) ep) histories
              (ap (λ (o : RentalOrder). some o.status) ep)
              (moved-Trail id f existing entry p there its_id ids move of_it from to mp);
        unused = λ j h. as_Trail refl histories refl (
            of_another entry
              (λ (e : entry.order_id ≡ j). omega (arith, e, of_it, its_id, low, h, grows))
              (audited.unused j (omega (arith, h, grows))));
      }
  Change-IsAudited w sound (added new entry fresh draft orders histories of_it from to grows) =
      record {
        orders = λ o m. elim (Memᴰ-append v.rentals.orders (new ∷ []) (subst (Memᴰ o) orders m)) [
          | inl old ↦
              let low = sound.orders_below o old in
              as_Trail refl histories refl (
                of_another entry
                  (λ (e : entry.order_id ≡ o.id). omega (arith, e, of_it, fresh, low))
                  (audited.orders o old))
          | inr it ↦
              let same = Memᴰ-single it in
              as_Trail (ap (λ (o : RentalOrder). o.id) same) histories
                (ap (λ (o : RentalOrder). some o.status) same ∙ ap some draft)
                (begins entry of_it from to (audited.unused new.id (omega (arith, fresh))))
        ];
        unused = λ j h. as_Trail refl histories refl (
            of_another entry (λ (e : entry.order_id ≡ j). omega (arith, e, of_it, fresh, h, grows))
              (audited.unused j (omega (arith, h, grows))));
      }

-- Over any number of steps from a world that the server reaches, the histories of the statuses stay
-- true to the orders: if in the first world the entries of every order begin with its creation as a
-- draft, follow one another by moves a status may make, each from where the one before it led, and
-- end in the status that the order has, and if no id that is not drawn yet has an entry, then all this
-- holds in the last world.
pub Steps-IsAudited :
    (runtime : Runtime) {w w' : World}
    → Reachable runtime w
    → Steps runtime w w'
    → IsAudited w
    → IsAudited w'
Steps-IsAudited runtime r (none_yet w) audited = audited
Steps-IsAudited runtime r (more {v = v} {w = w} steps step) audited =
    let there = Steps-Reachable runtime r steps in
    Change-IsAudited v (Reachable-HasKeys runtime there) (Steps-IsAudited runtime r steps audited) w
      (Reachable-Sound runtime there) (Step-Changes runtime step)
