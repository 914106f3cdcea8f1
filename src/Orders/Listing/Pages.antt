-- ===== src/Orders/Listing/Pages.antt =====
-- The pages of the list of orders, one after the other.
use rental_be_nest.Prelude.{
  ℕ, zero, suc, ◌<◌, ◌≡◌, refl, sym, ap, ◌∙◌, String, Bool, true, false, List, [], ◌∷◌, ◌++◌,
  length, keep, count, leb, length-keep, sort_by, count-sort_by, IsSorted, sort_by-IsSorted, arith,
  ◌&&◌,
}
use rental_be_nest.Result.{Result, ok, err, bind-ok, ok-injective, ◌>>=◌}
use rental_be_nest.World.{World}
use rental_be_nest.Orders.Tables.{RentalOrder}
use rental_be_nest.Orders.Views.Paging.{
  at_least_one, page_of, pages_up_to, build_pagination, pages-cover,
}
use rental_be_nest.Orders.Pricing.{ceil_div}
use rental_be_nest.Orders.Output.{Filled, RentalOrderOut, map_result, to_rental_order_out}
use rental_be_nest.Orders.Listing.{
  GetAllRentalOrders, Surroundings, OrdersPage, RentalOrderSortBy, SortOrder, ordered, column_le,
  order_by, where_clause, selected_orders, get_all_rental_orders, or_default, default_per_page,
  paginated_response,
}

-- The entries of the first pages: a client that asks for one page after the other.
unfoldable pub all_pages :
    Surroundings → Filled → GetAllRentalOrders → ℕ → World → Result (List RentalOrderOut)
all_pages around filled q zero w = ok []
all_pages around filled q (suc n) w = all_pages around filled q n w >>= λ before.
    get_all_rental_orders around filled (record q { page = suc n }) w >>= λ p.
    ok (before ++ p.items)

module _ {A B : Type 0} where
  bind_same : (m : Result A) (f g : A → Result B) → ((a : A) → f a ≡ g a) → (m >>= f) ≡ (m >>= g)
  bind_same (err e) f g same = refl
  bind_same (ok a) f g same = same a

  bind_ok_then :
      {C : Type 0} (m : Result A) (g : A → C) (k : C → Result B)
      → ((m >>= λ a. ok (g a)) >>= k) ≡ (m >>= λ a. k (g a))
  bind_ok_then (err e) g k = refl
  bind_ok_then (ok a) g k = refl

  map_result-append :
      (f : A → Result B) (xs ys : List A)
      → (map_result f xs >>= λ cs. map_result f ys >>= λ bs. ok (cs ++ bs))
        ≡ map_result f (xs ++ ys)
  unfolding map_result
  map_result-append f [] ys = go (map_result f ys)
    where
      go : (m : Result (List B)) → (m >>= λ bs. ok bs) ≡ m
      go (err e) = refl
      go (ok bs) = refl
  map_result-append f (x ∷ xs) ys =
      go (f x) (map_result f xs) (map_result f ys) (map_result f (xs ++ ys))
        (map_result-append f xs ys)
    where
      go :
          (r : Result B) (m n all : Result (List B))
          → (m >>= λ cs. n >>= λ bs. ok (cs ++ bs)) ≡ all
          → ((r >>= λ y. m >>= λ ys. ok (y ∷ ys)) >>= λ cs. n >>= λ bs. ok (cs ++ bs))
            ≡ (r >>= λ y. all >>= λ ys. ok (y ∷ ys))
      go (err e) m n all h = refl
      go (ok y) m n all h = ends m n ∙ ap (λ r. r >>= λ ys. ok (y ∷ ys)) h
        where
          ends :
              (m n : Result (List B))
              → ((m >>= λ ys. ok (y ∷ ys)) >>= λ cs. n >>= λ bs. ok (cs ++ bs))
                ≡ ((m >>= λ cs. n >>= λ bs. ok (cs ++ bs)) >>= λ ys. ok (y ∷ ys))
          ends (err e) n = refl
          ends (ok ys) (err e) = refl
          ends (ok ys) (ok bs) = refl

all_pages-map_result :
    (around : Surroundings) (filled : Filled) (q : GetAllRentalOrders) (w : World) (n : ℕ)
    → all_pages around filled q n w
      ≡ map_result
          (to_rental_order_out filled w)
          (pages_up_to n q.per_page (selected_orders around filled q w))
unfolding all_pages get_all_rental_orders selected_orders map_result
all_pages-map_result around filled q w zero = refl
all_pages-map_result around filled q w (suc n) =
    let to_out = to_rental_order_out filled w in
    let rows = selected_orders around filled q w in
    let page = map_result to_out (page_of (suc n) q.per_page rows) in
    bind_same (all_pages around filled q n w) _ (λ before. page >>= λ items. ok (before ++ items))
      (λ before.
        bind_ok_then page
          (λ items. record {
            items = items;
            total = count (where_clause around q) w.rentals.orders;
            page = suc n;
            per_page = q.per_page;
          })
          (λ (p : OrdersPage). ok (before ++ p.items)))
    ∙ ap (λ m. m >>= λ before. page >>= λ items. ok (before ++ items))
        (all_pages-map_result around filled q w n)
    ∙ map_result-append to_out (pages_up_to n q.per_page rows) (page_of (suc n) q.per_page rows)

module _ {A : Type 0} where
  count-keep : (p q : A → Bool) (xs : List A) → count p (keep q xs) ≡ count (λ x. q x && p x) xs
  count-keep p q [] = refl
  count-keep p q (x ∷ xs) = ground (arith, count-keep p q xs)

  count-all : (xs : List A) → count (λ x. true) xs ≡ length xs
  count-all [] = refl
  count-all (x ∷ xs) = ap suc (count-all xs)

  length-sort_by : (le : A → A → Bool) (xs : List A) → length (sort_by le xs) ≡ length xs
  length-sort_by le xs =
      sym (count-all (sort_by le xs)) ∙ count-sort_by le (λ x. true) xs ∙ count-all xs

or_default_positive : (n : ℕ) → 0 < n → or_default n default_per_page ≡ n
or_default_positive zero h = absurd (omega (arith, h))
or_default_positive (suc n) h = refl

leb_total : (a b : ℕ) → leb a b ≡ false → leb b a ≡ true
leb_total a b h = ground (arith, h)

ordered_total :
    (forth back i j : Bool)
    → (forth ≡ false → back ≡ true)
    → (i ≡ false → j ≡ true)
    → ordered forth back i ≡ false
    → ordered back forth j ≡ true
ordered_total true true i j one ids h = ids h
ordered_total true false i j one ids h = cc
ordered_total false true i j one ids h = refl
ordered_total false false i j one ids h = one refl

module _ (around : Surroundings) (filled : Filled)
    (codes_total : (a b : String) → around.code_le a b ≡ false → around.code_le b a ≡ true) where
  column_le_total :
      (column : RentalOrderSortBy) (a b : RentalOrder)
      → column_le around filled column a b ≡ false
      → column_le around filled column b a ≡ true
  column_le_total RentalOrderSortBy.created_at a b h = leb_total _ _ h
  column_le_total RentalOrderSortBy.updated_at a b h = leb_total _ _ h
  column_le_total RentalOrderSortBy.code a b h = codes_total a.code b.code h
  column_le_total RentalOrderSortBy.start_date a b h = leb_total _ _ h
  column_le_total RentalOrderSortBy.end_date a b h = leb_total _ _ h
  column_le_total RentalOrderSortBy.status a b h = leb_total _ _ h
  column_le_total RentalOrderSortBy.payment_status a b h = leb_total _ _ h
  column_le_total RentalOrderSortBy.upfront_total a b h = leb_total _ _ h
  column_le_total RentalOrderSortBy.remaining_total a b h = leb_total _ _ h

  order_by_total :
      (column : RentalOrderSortBy) (sort : SortOrder) (a b : RentalOrder)
      → order_by around filled column sort a b ≡ false
      → order_by around filled column sort b a ≡ true
  unfolding order_by
  order_by_total column SortOrder.asc a b h =
      ordered_total _ _ (leb a.id b.id) _ (column_le_total column a b) (leb_total a.id b.id) h
  order_by_total column SortOrder.desc a b h =
      ordered_total _ _ (leb a.id b.id) _ (column_le_total column b a) (leb_total a.id b.id) h

-- The pages of the list lose and repeat no order: for a page size of at least one and a collation in
-- which any two codes compare, when one page is answered, the entries of the pages from the first to
-- the total number that the answer gives are those of the rows that the query selects, of each in
-- turn; these rows ascend by the query's order, which ties break by the id; and for any test, as many
-- of them pass it as rows of the table are not deleted, match the query's filters and pass it.
pub get_all_rental_orders-pages :
    (around : Surroundings) (filled : Filled) (q : GetAllRentalOrders) (w : World)
    (test : RentalOrder → Bool) {page : OrdersPage}
    → 0 < q.per_page
    → ((a b : String) → around.code_le a b ≡ false → around.code_le b a ≡ true)
    → get_all_rental_orders around filled q w ≡ ok page
    → (all_pages around filled q (paginated_response page).total_page w
        ≡ map_result (to_rental_order_out filled w) (selected_orders around filled q w))
      × IsSorted (order_by around filled q.sort_by q.sort) (selected_orders around filled q w)
      × (count test (selected_orders around filled q w)
          ≡ count (λ o. where_clause around q o && test o) w.rentals.orders)
unfolding get_all_rental_orders selected_orders build_pagination paginated_response
get_all_rental_orders-pages around filled q w test {page} positive codes_total h =
    let le = order_by around filled q.sort_by q.sort in
    let kept = keep (where_clause around q) w.rentals.orders in
    let rows = selected_orders around filled q w in
    let to_out = to_rental_order_out filled w in
    let (items, _, last) = bind-ok (map_result to_out (page_of q.page q.per_page rows)) _ h in
    let answer = ok-injective last in
    let pages = λ (p : OrdersPage). (paginated_response p).total_page in
    let q_total = count (where_clause around q) w.rentals.orders in
    let total : q_total ≡ length rows =
      sym (length-keep (where_clause around q) w.rentals.orders) ∙ sym (length-sort_by le kept) in
    let counted =
      ap pages (sym answer)
      ∙ ap (λ n. at_least_one (ceil_div q_total n)) (or_default_positive q.per_page positive)
      ∙ ap (λ n. (build_pagination q.page q.per_page n (length items)).total_page) total in
    (
      ap (λ n. all_pages around filled q n w) counted
          ∙ all_pages-map_result around filled q w
              (build_pagination q.page q.per_page (length rows) (length items)).total_page
          ∙ ap (map_result to_out) (pages-cover q.page q.per_page (length items) rows positive),
      sort_by-IsSorted le (order_by_total around filled codes_total q.sort_by q.sort) kept,
      count-sort_by le test kept ∙ count-keep test (where_clause around q) w.rentals.orders,
    )
