-- ===== src/Examples/Listing.antt =====
-- The list of orders of a shop with a draft.
use rental_be_nest.Prelude.{
  ◌≡◌, refl, sym, ◌∙◌, none, some, [], ◌∷◌, count, true, ◌&&◌, IsSorted, Memᴰ, Memᴰ-single, arith,
  sort_by, ◌==◌,
}
use rental_be_nest.Result.{ok}
use rental_be_nest.Orders.Lifecycle.Rows.{HasKeys}
use rental_be_nest.Orders.Views.{contains_text}
use rental_be_nest.Orders.Views.Paging.{page_of}
use rental_be_nest.Orders.Service.{items_of}
use rental_be_nest.Orders.Output.{
  Filled, RentalOrderOut, map_result, to_rental_order_out, order_out, item_out,
}
use rental_be_nest.Orders.Listing.{
  SortOrder, RentalOrderSortBy, GetAllRentalOrders, Surroundings, OrdersPage, order_by,
  where_clause, selected_orders, matches_dates, get_all_rental_orders, get_rental_order_by_id,
  paginated_response,
}
use rental_be_nest.Orders.Listing.Pages.{all_pages, get_all_rental_orders-pages}
use rental_be_nest.Orders.Listing.Details.{get_all_rental_orders-by_id}
use rental_be_nest.Examples.Data.{camera, customer, draft, draft_item, drafted}

abbrev around : Surroundings
around = record { normalize_search_text = λ text. text; code_le = λ a b. true }

abbrev filled : Filled
filled = record {
  created_at = λ o. 1000;
  updated_at = λ o. 1000;
  actual_return_date = λ o. none;
  late_fee_total = λ o. 0;
  damage_fee_total = λ o. 0;
  item_created_at = λ i. 1000;
  item_updated_at = λ i. 1000;
  decimal_to_string = λ n. "";
}

abbrev query : GetAllRentalOrders
query = record {
  page = 1;
  per_page = 10;
  sort = SortOrder.desc;
  search = "";
  customer_id = some 50;
  assigned_to_id = none;
  status = none;
  payment_status = none;
  from_date = some 3600000;
  to_date = none;
  sort_by = RentalOrderSortBy.code;
}

abbrev shown : RentalOrderOut
shown =
    order_out filled draft customer none
      (item_out filled draft_item camera (some record { id = 20; serial_number = "S20" }) ∷ [])

abbrev first_page : OrdersPage
first_page = record { items = shown ∷ []; total = 1; page = 1; per_page = 10 }

answered : get_all_rental_orders around filled query drafted ≡ ok first_page
unfolding get_all_rental_orders selected_orders map_result to_rental_order_out items_of page_of
    where_clause order_by contains_text matches_dates sort_by
answered = refl

drafted-HasKeys : HasKeys drafted.rentals.orders
drafted-HasKeys o p m n same = Memᴰ-single m ∙ sym (Memᴰ-single n)

get_all_rental_orders-by_id_example : get_rental_order_by_id filled 100 drafted ≡ ok shown
get_all_rental_orders-by_id_example =
    get_all_rental_orders-by_id around filled query drafted {page = first_page} {out = shown}
      drafted-HasKeys answered (Memᴰ.head refl)

get_all_rental_orders-pages_example :
    (all_pages around filled query (paginated_response first_page).total_page drafted
      ≡ map_result
          (to_rental_order_out filled drafted)
          (selected_orders around filled query drafted))
    × IsSorted
        (order_by around filled query.sort_by query.sort)
        (selected_orders around filled query drafted)
    × (count (λ o. o.id == 100) (selected_orders around filled query drafted)
        ≡ count (λ o. where_clause around query o && o.id == 100) drafted.rentals.orders)
get_all_rental_orders-pages_example =
    get_all_rental_orders-pages around filled query drafted (λ o. o.id == 100) {page = first_page}
      (omega arith) (λ a b h. refl) answered
