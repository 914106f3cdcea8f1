-- ===== src/Orders/Availability/Served.antt =====
-- When the tables can serve a request, said of the rows and the request themselves.
use rental_be_nest.Prelude.{
  ℕ, ◌+◌, ◌≤◌, ◌<◌, ◌≡◌, refl, sym, ap, ◌∙◌, ◌↔◌, inl, inr, Bool, true, false, not, ◌&&◌, ◌||◌,
  Option, none, some, List, [], ◌∷◌, Memᴰ, map, map-Memᴰ, keep, length, length-keep, count,
  includes, includes-unique, includes-Memᴰ, includes-filter_map, filter_map, unique, leb, ◌==◌,
  ==_iff, is_some_eq, arith, Bool-cases, Option-cases, Memᴰ-keep, subst,
}
use rental_be_nest.Catalog.{Catalog, AssetUnit, is_null, is_assignable}
use rental_be_nest.Catalog.Queries.{count_assignable_asset_units}
use rental_be_nest.Orders.Tables.{NormalizedItem, RentalOrder, OrderItem, Rentals}
use rental_be_nest.Orders.Booking.{
  find_order, is_booked, blocking_order_where, get_booked_asset_unit_ids, get_booked_quantity,
  is_among,
}
use rental_be_nest.Orders.Booking.Blocking.{not_booked}
use rental_be_nest.Orders.Bookings.{blocks}
use rental_be_nest.Orders.Availability.{
  EvaluateParams, requested_quantity, unavailable_items_of, booked_ids, assignable_count,
  booked_quantity, product_ids_of, asset_unit_ids_of,
}
use rental_be_nest.Orders.Availability.Report.{
  NoneBooked, NoneBooked-Memᴰ, AllFit, Passes, unavailable_items-Passes,
}

-- An order other than the excluded one blocks a moment of the period from `s` to before `e`.
abbrev pub takes_part : ℕ → ℕ → Option ℕ → Option RentalOrder → Bool
takes_part s e exclude none = false
takes_part s e exclude (some o) =
    blocks o
    && not (is_some_eq exclude o.id)
    && not (leb e o.start_date || leb o.blocked_end_date s)

-- An item that is not deleted, of such an order.
abbrev pub occupies : Rentals → ℕ → ℕ → Option ℕ → OrderItem → Bool
occupies r s e exclude i =
    is_null i.deleted_at && takes_part s e exclude (find_order i.order_id r.orders)

-- The named units are free, and of each product there are assignable units, enough for the items that
-- occupy one and the items of the request together.
pub record CanServe (catalog : Catalog) (rentals : Rentals) (p : EvaluateParams) (blocked_end : ℕ)
    : Type 0 where
  pub units_free :
      (i : NormalizedItem) (b : OrderItem) (a : ℕ)
      → Memᴰ i p.items
      → i.asset_unit_id ≡ some a
      → Memᴰ b rentals.items
      → b.asset_unit_id ≡ some a
      → occupies rentals p.start_date blocked_end p.exclude_order_id b ≡ false
  pub products_exist :
      (i : NormalizedItem)
      → Memᴰ i p.items
      → 0
        < length (
            keep
              (λ (u : AssetUnit). u.product_id == i.product_id && is_assignable u)
              catalog.asset_units)
  pub products_fit :
      (i : NormalizedItem)
      → Memᴰ i p.items
      → length (
            keep
              (λ (b : OrderItem).
                b.product_id == i.product_id
                && occupies rentals p.start_date blocked_end p.exclude_order_id b)
              rentals.items)
          + length (keep (λ (j : NormalizedItem). j.product_id == i.product_id) p.items)
        ≤ length (
            keep
              (λ (u : AssetUnit). u.product_id == i.product_id && is_assignable u)
              catalog.asset_units)

occupies-is_booked :
    (r : Rentals) (s e : ℕ) (exclude : Option ℕ) (i : OrderItem)
    → is_booked r.orders s e exclude i ≡ occupies r s e exclude i
unfolding is_booked blocking_order_where
occupies-is_booked r s e none i = elim (Option-cases (find_order i.order_id r.orders)) [
  | inl missing ↦ rw (missing) refl
  | inr (o, found) ↦ rw (found) (ground arith)
]
occupies-is_booked r s e (some excluded) i = elim (Option-cases (find_order i.order_id r.orders)) [
  | inl missing ↦ rw (missing) refl
  | inr (o, found) ↦ rw (found) (ground (arith, ==_iff o.id excluded, ==_iff excluded o.id))
]

module _ {A : Type 0} where
  count_same :
      (p q : A → Bool) (xs : List A) → ((x : A) → p x ≡ q x) → count p xs ≡ length (keep q xs)
  count_same p q [] same = refl
  count_same p q (x ∷ xs) same = ground (arith, same x, count_same p q xs same)

  -- What a list of ids that are picked out includes was picked from a member.
  Memᴰ-filter_map :
      (f : A → Option ℕ) (xs : List A) (a : ℕ)
      → includes (filter_map f xs) a ≡ true
      → (x : A) × Memᴰ x xs × (f x ≡ some a)
  Memᴰ-filter_map f [] a h = cc
  Memᴰ-filter_map f (x ∷ xs) a h = elim (Option-cases (f x)) [
    | inl missing ↦
        let later : includes (filter_map f xs) a ≡ true =
          ap (λ o. includes (elim o [ none ↦ filter_map f xs | some c ↦ c ∷ filter_map f xs ]) a)
            (sym missing)
          ∙ h in
        let (y, m, e) = Memᴰ-filter_map f xs a later in (y, Memᴰ.tail m, e)
    | inr (b, there) ↦
        let h' : (b == a || includes (filter_map f xs) a) ≡ true =
          ap (λ o. includes (elim o [ none ↦ filter_map f xs | some c ↦ c ∷ filter_map f xs ]) a)
            (sym there)
          ∙ h in
        elim (Bool-cases (b == a)) [
          | inl is_it ↦ (x, Memᴰ.head refl, there ∙ ap some ((==_iff b a).0 is_it))
          | inr other ↦
              let later : includes (filter_map f xs) a ≡ true = ground (arith, h', other) in
              let (y, m, e) = Memᴰ-filter_map f xs a later in (y, Memᴰ.tail m, e)
        ]
  ]

  Memᴰ-includes-map :
      (f : A → ℕ) (xs : List A) (k : ℕ)
      → includes (map f xs) k ≡ true
      → (x : A) × Memᴰ x xs × (f x ≡ k)
  Memᴰ-includes-map f [] k h = cc
  Memᴰ-includes-map f (x ∷ xs) k h = elim (Bool-cases (f x == k)) [
    | inl is_it ↦ (x, Memᴰ.head refl, (==_iff (f x) k).0 is_it)
    | inr other ↦
        let later : includes (map f xs) k ≡ true = rw (other) at h in
        let (y, m, e) = Memᴰ-includes-map f xs k later in (y, Memᴰ.tail m, e)
  ]

-- Each of a list of products fits when each that the list includes does.
AllFit-includes :
    (assignable booked requested : ℕ → ℕ) (ps : List ℕ)
    → ((q : ℕ)
        → includes ps q ≡ true
        → (0 < assignable q) × (booked q + requested q ≤ assignable q))
    → AllFit assignable booked requested ps
AllFit-includes assignable booked requested [] h = tt
AllFit-includes assignable booked requested (p ∷ ps) h =
    let (some_unit, enough) = h p (ground (arith, ==_iff p p)) in
    (
      some_unit,
      enough,
      AllFit-includes assignable booked requested ps (λ q m. h q (ground (arith, m))),
    )

includes-AllFit :
    (assignable booked requested : ℕ → ℕ) (ps : List ℕ) (q : ℕ)
    → AllFit assignable booked requested ps
    → includes ps q ≡ true
    → (0 < assignable q) × (booked q + requested q ≤ assignable q)
includes-AllFit assignable booked requested [] q h m = cc
includes-AllFit assignable booked requested (p ∷ ps) q (some_unit, enough, h) m =
    elim (Bool-cases (p == q)) [
      | inl is_it ↦
          subst (λ q. (0 < assignable q) × (booked q + requested q ≤ assignable q))
            ((==_iff p q).0 is_it) (some_unit, enough)
      | inr other ↦ includes-AllFit assignable booked requested ps q h (ground (arith, m, other))
    ]

module _ (catalog : Catalog) (rentals : Rentals) (p : EvaluateParams)
    (minutes blocked_end : ℕ) where
  asked_for :
      (q : ℕ)
      → includes (product_ids_of p.items) q ≡ true
      → (i : NormalizedItem) × Memᴰ i p.items × (i.product_id ≡ q)
  asked_for q m =
      Memᴰ-includes-map (λ (i : NormalizedItem). i.product_id) p.items q
        (sym (includes-unique (map (λ (i : NormalizedItem). i.product_id) p.items) q) ∙ m)

  listed :
      (i : NormalizedItem) → Memᴰ i p.items → includes (product_ids_of p.items) i.product_id ≡ true
  listed i m =
      includes-unique (map (λ (i : NormalizedItem). i.product_id) p.items) i.product_id
      ∙ includes-Memᴰ (map (λ (i : NormalizedItem). i.product_id) p.items)
          (map-Memᴰ (λ (i : NormalizedItem). i.product_id) p.items m)

  -- The counts of the code at a product of the request.
  assignable-length :
      (q : ℕ)
      → includes (product_ids_of p.items) q ≡ true
      → assignable_count catalog rentals p minutes blocked_end q
        ≡ length
            (keep (λ (u : AssetUnit). u.product_id == q && is_assignable u) catalog.asset_units)
  unfolding count_assignable_asset_units
  assignable-length q m =
      let asked = includes-unique (product_ids_of p.items) q ∙ m in
      rw (asked) (
        sym (
          length-keep (λ (u : AssetUnit). u.product_id == q && is_assignable u)
            catalog.asset_units))

  booked-length :
      (q : ℕ)
      → includes (product_ids_of p.items) q ≡ true
      → booked_quantity catalog rentals p minutes blocked_end q
        ≡ length (
            keep
              (λ (b : OrderItem).
                b.product_id == q && occupies rentals p.start_date blocked_end p.exclude_order_id b)
              rentals.items)
  unfolding get_booked_quantity
  booked-length q m =
      let asked = includes-unique (product_ids_of p.items) q ∙ m in
      rw (asked) (
        count_same _ _ rentals.items (λ b.
          ap (λ t. b.product_id == q && t)
            (occupies-is_booked rentals p.start_date blocked_end p.exclude_order_id b)))

  requested-length :
      (q : ℕ)
      → requested_quantity p.items q
        ≡ length (keep (λ (j : NormalizedItem). j.product_id == q) p.items)
  unfolding requested_quantity
  requested-length q = sym (length-keep (λ (j : NormalizedItem). j.product_id == q) p.items)

  Passes-CanServe :
      Passes catalog rentals p minutes blocked_end → CanServe catalog rentals p blocked_end
  unfolding get_booked_asset_unit_ids
  Passes-CanServe (free, fit) =
      let at = λ (q : ℕ) (m : includes (product_ids_of p.items) q ≡ true).
        includes-AllFit (assignable_count catalog rentals p minutes blocked_end)
          (booked_quantity catalog rentals p minutes blocked_end) (requested_quantity p.items)
          (product_ids_of p.items) q fit m in
      record {
        units_free = λ i b a m named mb holds.
            let unlisted =
              NoneBooked-Memᴰ (booked_ids catalog rentals p minutes blocked_end) p.items {item = i}
                free m named in
            let asked =
              includes-filter_map (λ (i : NormalizedItem). i.asset_unit_id) p.items m named in
            sym (occupies-is_booked rentals p.start_date blocked_end p.exclude_order_id b)
            ∙ not_booked rentals (asset_unit_ids_of p.items) p.start_date blocked_end
                p.exclude_order_id b a unlisted asked mb holds;
        products_exist = λ i m.
            let inside = listed i m in
            let (some_unit, _) = at i.product_id inside in
            omega (arith, some_unit, assignable-length i.product_id inside);
        products_fit = λ i m.
            let inside = listed i m in
            let (_, enough) = at i.product_id inside in
            omega (
              arith,
              enough,
              assignable-length i.product_id inside,
              booked-length i.product_id inside,
              requested-length i.product_id,
            );
      }

  pub CanServe-NoneBooked :
      CanServe catalog rentals p blocked_end
      → (items : List NormalizedItem) → ((i : NormalizedItem) → Memᴰ i items → Memᴰ i p.items)
      → NoneBooked (booked_ids catalog rentals p minutes blocked_end) items
  unfolding get_booked_asset_unit_ids
  CanServe-NoneBooked c [] inside = tt
  CanServe-NoneBooked c (i ∷ items) inside = (
    λ a named. elim (Bool-cases (includes (booked_ids catalog rentals p minutes blocked_end) a)) [
      | inr unlisted ↦ unlisted
      | inl taken ↦
          let booked = λ (b : OrderItem).
            is_among (unique (asset_unit_ids_of p.items)) b.asset_unit_id
            && is_booked rentals.orders p.start_date blocked_end p.exclude_order_id b in
          let (b, kept, holds) =
            Memᴰ-filter_map (λ (b : OrderItem). b.asset_unit_id) (keep booked rentals.items) a
              taken in
          let (mb, passes) = Memᴰ-keep booked rentals.items kept in
          let occupied : is_booked rentals.orders p.start_date blocked_end p.exclude_order_id b
              ≡ true =
            ground (arith, passes) in
          let free = c.units_free i b a (inside i (Memᴰ.head refl)) named mb holds in
          let same = occupies-is_booked rentals p.start_date blocked_end p.exclude_order_id b in
          absurd (cc (free, same, occupied))
    ],
    CanServe-NoneBooked c items (λ j m. inside j (Memᴰ.tail m)),
  )

  -- The report lists nothing as unavailable exactly when the tables can serve the request: no item
  -- that occupies the period holds a unit that the request names, and of each product of the request
  -- there are assignable units, and at least as many as the items that occupy the period and the
  -- items of the request for that product together. An item occupies the period if it is not deleted
  -- and the period of its blocking order, turnarounds included, overlaps it, the excluded order aside.
  pub unavailable_items-nil_iff :
      (unavailable_items_of catalog rentals p minutes blocked_end ≡ [])
      ↔ CanServe catalog rentals p blocked_end
  unavailable_items-nil_iff = (
    λ h. Passes-CanServe ((unavailable_items-Passes catalog rentals p minutes blocked_end).0 h),
    λ c. (unavailable_items-Passes catalog rentals p minutes blocked_end).1 (
      CanServe-NoneBooked c p.items (λ i m. m),
      AllFit-includes (assignable_count catalog rentals p minutes blocked_end)
          (booked_quantity catalog rentals p minutes blocked_end) (requested_quantity p.items)
          (product_ids_of p.items)
          (λ q m.
            let (i, mi, is_q) = asked_for q m in
            subst
              (λ q.
                (0 < assignable_count catalog rentals p minutes blocked_end q)
                × (booked_quantity catalog rentals p minutes blocked_end q
                      + requested_quantity p.items q
                    ≤ assignable_count catalog rentals p minutes blocked_end q))
              is_q
              (let inside = listed i mi in
                let exist = c.products_exist i mi in
                let fit = c.products_fit i mi in
                (
                  omega (arith, exist, assignable-length i.product_id inside),
                  omega (
                    arith,
                    fit,
                    assignable-length i.product_id inside,
                    booked-length i.product_id inside,
                    requested-length i.product_id,
                  ),
                ))),
    ),
  )
