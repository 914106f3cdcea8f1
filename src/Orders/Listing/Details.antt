-- ===== src/Orders/Listing/Details.antt =====
-- An entry of the list of orders against the order that is read by its id.
use rental_be_nest.Prelude.{
  ℕ, zero, suc, ◌-◌, ◌*◌, ◌≡◌, refl, sym, ap, subst, ◌∙◌, Bool, true, some, List, [], ◌∷◌, find,
  keep, take, drop, Memᴰ, Memᴰ-find, Memᴰ-keep, insert_sorted, sort_by, Bool-cases, inl, inr, arith,
  ==_refl,
}
use rental_be_nest.Result.{
  Result, ok, bind-ok, ok-injective, or_fail, not_found, rental_order_not_found, ◌>>=◌,
}
use rental_be_nest.World.{World}
use rental_be_nest.Catalog.{is_null}
use rental_be_nest.Orders.Tables.{RentalOrder}
use rental_be_nest.Orders.Service.{is_live_order, find_existing_rental_order, items_of}
use rental_be_nest.Orders.Lifecycle.Rows.{HasKeys}
use rental_be_nest.Orders.Bookings.Rows.{find_live-id}
use rental_be_nest.Orders.Views.Paging.{page_of}
use rental_be_nest.Orders.Output.{
  Filled, RentalOrderOut, map_result, to_rental_order_out, customer_row, find_item_out,
}
use rental_be_nest.Orders.Listing.{
  GetAllRentalOrders, Surroundings, OrdersPage, order_by, where_clause, selected_orders,
  get_all_rental_orders, get_rental_order_by_id,
}

module _ {A : Type 0} where
  Memᴰ-take : (n : ℕ) (xs : List A) {x : A} → Memᴰ x (take n xs) → Memᴰ x xs
  Memᴰ-take zero xs m = elim m [ ]
  Memᴰ-take (suc n) [] m = m
  Memᴰ-take (suc n) (y ∷ xs) (Memᴰ.head e) = Memᴰ.head e
  Memᴰ-take (suc n) (y ∷ xs) (Memᴰ.tail m) = Memᴰ.tail (Memᴰ-take n xs m)

  Memᴰ-drop : (n : ℕ) (xs : List A) {x : A} → Memᴰ x (drop n xs) → Memᴰ x xs
  Memᴰ-drop zero xs m = m
  Memᴰ-drop (suc n) [] m = m
  Memᴰ-drop (suc n) (y ∷ xs) m = Memᴰ.tail (Memᴰ-drop n xs m)

  Memᴰ-page_of :
      (page per_page : ℕ) (xs : List A) {x : A} → Memᴰ x (page_of page per_page xs) → Memᴰ x xs
  unfolding page_of
  Memᴰ-page_of page per_page xs m =
      Memᴰ-drop ((page - 1) * per_page) xs (Memᴰ-take per_page (drop ((page - 1) * per_page) xs) m)

  Memᴰ-insert_sorted :
      (le : A → A → Bool) (y : A) (ys : List A) {x : A}
      → Memᴰ x (insert_sorted le y ys)
      → Memᴰ x (y ∷ ys)
  unfolding insert_sorted
  Memᴰ-insert_sorted le y [] m = m
  Memᴰ-insert_sorted le y (z ∷ ys) {x} m = elim (Bool-cases (le y z)) [
    | inl t ↦ rw t at m
    | inr f ↦
        let m' : Memᴰ x (z ∷ insert_sorted le y ys) = rw f at m in
        go m' (λ k. Memᴰ-insert_sorted le y ys k)
  ]
    where
      go :
          {x y z : A} {ys zs : List A}
          → Memᴰ x (z ∷ zs)
          → (Memᴰ x zs → Memᴰ x (y ∷ ys))
          → Memᴰ x (y ∷ z ∷ ys)
      go (Memᴰ.head e) back = Memᴰ.tail (Memᴰ.head e)
      go (Memᴰ.tail m) back = elim (back m) [
        | Memᴰ.head e ↦ Memᴰ.head e
        | Memᴰ.tail k ↦ Memᴰ.tail (Memᴰ.tail k)
      ]

  Memᴰ-sort_by : (le : A → A → Bool) (xs : List A) {x : A} → Memᴰ x (sort_by le xs) → Memᴰ x xs
  unfolding sort_by
  Memᴰ-sort_by le [] m = m
  Memᴰ-sort_by le (y ∷ xs) m =
      Memᴰ-cons-map (Memᴰ-sort_by le xs) (Memᴰ-insert_sorted le y (sort_by le xs) m)
    where
      Memᴰ-cons-map :
          {x y : A} {xs zs : List A} → (Memᴰ x zs → Memᴰ x xs) → Memᴰ x (y ∷ zs) → Memᴰ x (y ∷ xs)
      Memᴰ-cons-map f (Memᴰ.head e) = Memᴰ.head e
      Memᴰ-cons-map f (Memᴰ.tail m) = Memᴰ.tail (f m)

  find-some :
      (p : A → Bool) (xs : List A) {x : A} → Memᴰ x xs → p x ≡ true → (y : A) × (find p xs ≡ some y)
  find-some p [] m h = elim m [ ]
  find-some p (y ∷ xs) m h = elim (Bool-cases (p y)) [
    | inl t ↦ (y, rw (t) refl)
    | inr f ↦ elim m [
      | Memᴰ.head e ↦ let it = ap p e in absurd (cc (it, h, f))
      | Memᴰ.tail k ↦ let (z, found) = find-some p xs k h in (z, rw (f) found)
    ]
  ]

  Memᴰ-map_result :
      {B : Type 0} (f : A → Result B) (xs : List A) {ys : List B} {y : B}
      → map_result f xs ≡ ok ys
      → Memᴰ y ys
      → (x : A) × Memᴰ x xs × (f x ≡ ok y)
  unfolding map_result
  Memᴰ-map_result f [] {y = y} h m = elim (subst (Memᴰ y) (sym (ok-injective h)) m) [ ]
  Memᴰ-map_result f (x ∷ xs) {y = y} h m =
      let (z, fz, rest) = bind-ok (f x) _ h in
      let (zs, fzs, last) = bind-ok (map_result f xs) _ rest in
      elim (subst (Memᴰ y) (sym (ok-injective last)) m) [
        | Memᴰ.head e ↦ (x, Memᴰ.head refl, fz ∙ ap ok (sym e))
        | Memᴰ.tail k ↦ let (a, there, fa) = Memᴰ-map_result f xs fzs k in (a, Memᴰ.tail there, fa)
      ]

to_rental_order_out-id :
    (filled : Filled) (w : World) (o : RentalOrder) {out : RentalOrderOut}
    → to_rental_order_out filled w o ≡ ok out
    → out.id ≡ o.id
unfolding to_rental_order_out
to_rental_order_out-id filled w o h =
    let (c, _, rest) = bind-ok (customer_row o.customer_id w) _ h in
    let (items, _, last) =
      bind-ok (map_result (find_item_out filled w) (items_of o.id w.rentals.items)) _ rest in
    ap (λ (out : RentalOrderOut). out.id) (sym (ok-injective last))

-- The live row of an id is the only one that has the id.
find_existing-HasKeys :
    (w : World) (o : RentalOrder)
    → HasKeys w.rentals.orders
    → Memᴰ o w.rentals.orders
    → is_null o.deleted_at ≡ true
    → find_existing_rental_order o.id w ≡ ok o
unfolding find_existing_rental_order
find_existing-HasKeys w o keys m live =
    let passes : is_live_order o.id o ≡ true = ground (arith, live, ==_refl o.id) in
    let (p, found) = find-some (is_live_order o.id) w.rentals.orders m passes in
    let (there, _) = Memᴰ-find (is_live_order o.id) w.rentals.orders found in
    let same = keys p o there m (find_live-id o.id w.rentals.orders found) in
    ap (λ r. or_fail r (not_found rental_order_not_found)) (found ∙ ap some same)

-- What the list shows of an order is what is answered for its id: if an id stands in one row of the
-- table, an entry of an answered page of the list, whatever its filters and its order, is the answer
-- for the entry's id.
pub get_all_rental_orders-by_id :
    (around : Surroundings) (filled : Filled) (q : GetAllRentalOrders) (w : World)
    {page : OrdersPage} {out : RentalOrderOut}
    → HasKeys w.rentals.orders
    → get_all_rental_orders around filled q w ≡ ok page
    → Memᴰ out page.items
    → get_rental_order_by_id filled out.id w ≡ ok out
unfolding get_all_rental_orders get_rental_order_by_id selected_orders where_clause
get_all_rental_orders-by_id around filled q w {page} {out} keys h m =
    let rows = selected_orders around filled q w in
    let le = order_by around filled q.sort_by q.sort in
    let to_out = to_rental_order_out filled w in
    let (items, shown, last) = bind-ok (map_result to_out (page_of q.page q.per_page rows)) _ h in
    let same = ap (λ (p : OrdersPage). p.items) (ok-injective last) in
    let (o, on_page, is_out) =
      Memᴰ-map_result to_out (page_of q.page q.per_page rows) shown
        (subst (Memᴰ out) (sym same) m) in
    let kept =
      Memᴰ-sort_by le (keep (where_clause around q) w.rentals.orders)
        (Memᴰ-page_of q.page q.per_page rows on_page) in
    let (there, passes) = Memᴰ-keep (where_clause around q) w.rentals.orders kept in
    let live : is_null o.deleted_at ≡ true = ground (arith, passes) in
    let found = find_existing-HasKeys w o keys there live in
    ap (λ id. find_existing_rental_order id w >>= to_out) (to_rental_order_out-id filled w o is_out)
    ∙ ap (λ r. r >>= to_out) found
    ∙ is_out
