-- ===== src/Orders/Bookings/Created.antt =====
-- A new order is a draft, which books nothing: creating one keeps the tables sound.
use rental_be_nest.Prelude.{
  ℕ, ◌+◌, ◌≤◌, ◌<◌, ◌≡◌, refl, sym, ap, ◌∙◌, subst, ◌⊎◌, inl, inr, false, Option, some, List, [],
  ◌∷◌, ◌++◌, Memᴰ, Memᴰ-append, Memᴰ-single, ◌==◌, length, arith, Bool-cases, ◌or_else◌,
}
use rental_be_nest.Result.{require-ok}
use rental_be_nest.Exec.{reads, lift, ◌>>=◌}
use rental_be_nest.World.{World, Customer}
use rental_be_nest.World.Frames.{Frames-reads, Frames-lift}
use rental_be_nest.Store.Policy.{RentalPolicy}
use rental_be_nest.Orders.Tables.{RentalOrder, OrderItem, PricedItem, Totals, status_in}
use rental_be_nest.Orders.Booking.{find_order}
use rental_be_nest.Orders.Code.{generate_order_code}
use rental_be_nest.Orders.Pricing.{to_order_item, price_items, calculate_totals}
use rental_be_nest.Orders.Availability.{
  Availability, evaluate_availability, add_minutes, read_policy,
}
use rental_be_nest.Orders.Availability.Frames.{read_policy-Frames, evaluate_availability-Frames}
use rental_be_nest.Orders.Availability.Accepted.{evaluate_availability-IsAccepted}
use rental_be_nest.Orders.Service.{
  Runtime, assert_available, find_customer_for_rental, find_assigned_user_for_rental,
  find_products_for_items, normalize_items,
}
use rental_be_nest.Orders.Service.Create.{
  CreateRentalOrder, create_params, number_items, new_order, insert_order, create_in_transaction,
  create_priced, create_rental_order,
}
use rental_be_nest.Orders.Bookings.{
  IsBooking, WasBooking, IsNewBooking, NoDoubleBooking-grows, Sound, blocks,
}
use rental_be_nest.Orders.Bookings.Rows.{find_order-id}
use rental_be_nest.Orders.Bookings.Sound.{WasBooking-refl, EndsWell, transaction_keeps, Frames-then}

-- The new rows belong to the order, with ids from the first one on.
pub number_items-range :
    (order_id n : ℕ) (ps : List PricedItem) {i : OrderItem}
    → Memᴰ i (number_items order_id n ps)
    → (i.order_id ≡ order_id) × (n ≤ i.id) × (i.id < n + length ps)
unfolding number_items to_order_item
number_items-range order_id n [] m = elim m [ ]
number_items-range order_id n (p ∷ ps) {i} (Memᴰ.head e) =
    let same_id : i.id ≡ n = ap (λ (i : OrderItem). i.id) e in
    (ap (λ (i : OrderItem). i.order_id) e, omega (arith, same_id), omega (arith, same_id))
number_items-range order_id n (p ∷ ps) {i} (Memᴰ.tail m) =
    let (o, low, high) = number_items-range order_id (n + 1) ps m in
    (o, omega (arith, low), omega (arith, high))

find_order-append :
    (k : ℕ) (orders : List RentalOrder) (new : RentalOrder) {o : RentalOrder}
    → find_order k (orders ++ new ∷ []) ≡ some o
    → (find_order k orders ≡ some o) ⊎ (o ≡ new)
unfolding find_order
find_order-append k [] new {o} h = elim (Bool-cases (new.id == k)) [
  | inl t ↦ inr (ground (arith, h, t))
  | inr f ↦ absurd (ground (arith, h, f))
]
find_order-append k (x ∷ xs) new {o} h = elim (Bool-cases (x.id == k)) [
  | inl t ↦ inl (ground (arith, h, t))
  | inr f ↦ elim (find_order-append k xs new {o = o} (ground (arith, h, f))) [
    | inl found ↦ inl (ground (arith, found, f))
    | inr same ↦ inr same
  ]
]

module _ (new : RentalOrder) (priced : List PricedItem) (w : World) (is_next : new.id ≡ w.next_id)
    (ends : EndsWell new) (books_nothing : blocks new ≡ false) (s : Sound w) where
  inserted_booking :
      (a : ℕ) (o : RentalOrder)
      → IsBooking (insert_order new priced w).rentals a o
      → WasBooking w.rentals a o ⊎ IsNewBooking w.rentals new.id a o
  unfolding insert_order
  inserted_booking a o b = elim (find_order-append b.item.order_id w.rentals.orders new b.of) [
    | inr same ↦ absurd (cc (ap blocks same, books_nothing, b.blocking))
    | inl found ↦
        elim (Memᴰ-append w.rentals.items (number_items new.id (new.id + 1) priced) b.mem) [
          | inl was ↦ inl (WasBooking-refl o b was found refl)
          | inr m ↦
              let (of_new, _, _) = number_items-range new.id (new.id + 1) priced m in
              let (in_orders, is_id) = find_order-id b.item.order_id w.rentals.orders found in
              let below = s.orders_below o in_orders in
              absurd (omega (arith, below, is_id, of_new, is_next))
        ]
  ]

  inserted_keys :
      (i j : OrderItem)
      → Memᴰ i (w.rentals.items ++ number_items new.id (new.id + 1) priced)
      → Memᴰ j (w.rentals.items ++ number_items new.id (new.id + 1) priced)
      → i.id ≡ j.id
      → i.order_id ≡ j.order_id
  inserted_keys i j m n e =
      let rows = number_items new.id (new.id + 1) priced in
      elim (Memᴰ-append w.rentals.items rows m) [
        | inl mi ↦ elim (Memᴰ-append w.rentals.items rows n) [
          | inl mj ↦ s.item_keys i j mi mj e
          | inr mj ↦
              let (_, low, _) = number_items-range new.id (new.id + 1) priced mj in
              let below = s.items_below i mi in absurd (omega (arith, low, below, is_next, e))
        ]
        | inr mi ↦
            let (oi, low, _) = number_items-range new.id (new.id + 1) priced mi in
            elim (Memᴰ-append w.rentals.items rows n) [
              | inl mj ↦
                  let below = s.items_below j mj in absurd (omega (arith, low, below, is_next, e))
              | inr mj ↦
                  let (oj, _, _) = number_items-range new.id (new.id + 1) priced mj in oi ∙ sym oj
            ]
      ]

  insert_order-Sound : Sound (insert_order new priced w)
  unfolding insert_order
  insert_order-Sound = record {
    no_double_booking =
        NoDoubleBooking-grows w.rentals (insert_order new priced w).rentals new.id inserted_booking
          s.no_double_booking;
    blocked_ends = λ o m. elim (Memᴰ-append w.rentals.orders (new ∷ []) m) [
      | inl was ↦ s.blocked_ends o was
      | inr k ↦ subst EndsWell (sym (Memᴰ-single k)) ends
    ];
    item_keys = inserted_keys;
    items_below = λ i m.
        elim (Memᴰ-append w.rentals.items (number_items new.id (new.id + 1) priced) m) [
          | inl was ↦ let below = s.items_below i was in omega (arith, below, is_next)
          | inr k ↦
              let (_, _, high) = number_items-range new.id (new.id + 1) priced k in
              omega (arith, high)
        ];
    orders_below = λ o m. elim (Memᴰ-append w.rentals.orders (new ∷ []) m) [
      | inl was ↦ let below = s.orders_below o was in omega (arith, below, is_next)
      | inr k ↦ let same = ap (λ (o : RentalOrder). o.id) (Memᴰ-single k) in omega (arith, same)
    ];
  }

module _ (runtime : Runtime) (dto : CreateRentalOrder) (user : ℕ) where
  create_in_transaction-Sound :
      (policy : RentalPolicy) (customer : Customer) (assigned_to : Option ℕ) (totals : Totals)
      (blocked_end_date : ℕ) (priced : List PricedItem) (w : World)
      → blocked_end_date ≡ add_minutes dto.end_date policy.turnaround_minutes
      → Sound w
      → Sound
          (create_in_transaction runtime dto user policy customer assigned_to totals
            blocked_end_date priced w).1
  unfolding create_in_transaction new_order ◌>>=◌ status_in
  create_in_transaction-Sound policy customer assigned_to totals blocked_end_date priced w ends s =
      insert_order-Sound
        (new_order runtime dto user policy customer assigned_to totals blocked_end_date w.next_id
          (generate_order_code w.rentals.orders))
        priced w refl ends (refl) s

  created_rest :
      (policy : RentalPolicy) (a : Availability) (customer : Customer) (assigned_to : Option ℕ)
      (w : World)
      → a.blocked_end_date ≡ add_minutes dto.end_date policy.turnaround_minutes
      → Sound w
      → Sound (create_priced runtime dto user policy a customer assigned_to w).1
  unfolding create_priced reads lift
  created_rest policy a customer assigned_to w ends s =
      Frames-then (reads (find_products_for_items (normalize_items dto.items))) _ w (Frames-reads _)
        s
        (λ products h s1.
          Frames-then
            (lift
              (price_items (normalize_items dto.items) products policy dto.start_date dto.end_date))
            _ w (Frames-lift _) s
            (λ priced h s2.
              let totals =
                calculate_totals priced (dto.delivery_fee_total or_else 0)
                  (dto.discount_total or_else 0) in
              let body =
                create_in_transaction runtime dto user policy customer assigned_to totals
                  a.blocked_end_date priced in
              transaction_keeps body w s (λ o h.
                create_in_transaction-Sound policy customer assigned_to totals a.blocked_end_date
                  priced (record w { locks = [] }) ends s)))

  -- A creation, whether it returns or throws, keeps the tables sound.
  pub create_rental_order-Sound :
      (w : World) → Sound w → Sound (create_rental_order runtime dto user w).1
  unfolding create_rental_order reads lift create_params assert_available
  create_rental_order-Sound w s = Frames-then read_policy _ w read_policy-Frames s (λ policy h s1.
      let w1 = (read_policy w).1 in
      let p = create_params dto policy in
      Frames-then (evaluate_availability runtime.clock p) _ w1
        (evaluate_availability-Frames runtime.clock p) s1
        (λ a h1 s2.
          let w2 = (evaluate_availability runtime.clock p w1).1 in
          Frames-then (lift (assert_available a)) _ w2 (Frames-lift _) s2 (λ u h2 s3.
            let accepted =
              evaluate_availability-IsAccepted runtime.clock p w1 h1 (require-ok _ _ h2) in
            let ends =
              accepted.blocked
              ∙ ap (add_minutes dto.end_date) (accepted.given policy.turnaround_minutes refl) in
            Frames-then (reads (find_customer_for_rental dto.customer_id)) _ w2 (Frames-reads _) s2
              (λ customer h3 s4.
                Frames-then (reads (find_assigned_user_for_rental dto.assigned_to_id)) _ w2
                  (Frames-reads _) s2
                  (λ assigned_to h4 s5. created_rest policy a customer assigned_to w2 ends s2)))))
