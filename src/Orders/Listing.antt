-- ===== src/Orders/Listing.antt =====
-- The list of orders and one order: `getAllRentalOrders` and `getRentalOrderById` of
-- src/modules/rental-orders/rental-orders.service.ts, the query of dto/get-all-rental-orders.dto.ts
-- beside it, and the pagination of src/libs/types/custom-response.type.ts.
pub mod Pages
pub mod Details
use rental_be_nest.Prelude.{
  zero, suc, ◌+◌, ◌-◌, length, if◌then◌else◌, ℕ, String, Bool, true, false, ◌&&◌, Option, none,
  some, List, [], ◌∷◌, ltb, leb, ◌==◌, keep, count, is_some_eq, sort_by,
}
use rental_be_nest.Result.{Result, ok, ◌>>=◌}
use rental_be_nest.World.{World}
use rental_be_nest.Catalog.{is_null}
use rental_be_nest.Orders.Tables.{OrderStatus, PaymentStatus, RentalOrder, status_tag}
use rental_be_nest.Orders.Service.{find_existing_rental_order}
use rental_be_nest.Orders.Views.{contains_text}
use rental_be_nest.Orders.Views.Paging.{Pagination, at_least_one, page_of}
use rental_be_nest.Orders.Pricing.{ceil_div}
use rental_be_nest.Orders.Output.{Filled, RentalOrderOut, map_result, to_rental_order_out}

pub data SortOrder : Type 0 where
  asc desc : SortOrder

pub data RentalOrderSortBy : Type 0 where
  created_at updated_at code start_date end_date status payment_status upfront_total :
      RentalOrderSortBy
  remaining_total : RentalOrderSortBy

-- `GetAllRentalOrdersDto`, with what it extends; a search that is not sent is the empty text.
pub record GetAllRentalOrders : Type 0 where
  pub page : ℕ
  pub per_page : ℕ
  pub sort : SortOrder
  pub search : String
  pub customer_id : Option ℕ
  pub assigned_to_id : Option ℕ
  pub status : Option OrderStatus
  pub payment_status : Option PaymentStatus
  pub from_date : Option ℕ
  pub to_date : Option ℕ
  pub sort_by : RentalOrderSortBy

-- The values of the enumeration in the order of the schema, which is that of the database.
abbrev pub payment_tag : PaymentStatus → ℕ
payment_tag PaymentStatus.unpaid = 0
payment_tag PaymentStatus.partially_paid = 1
payment_tag PaymentStatus.paid = 2
payment_tag PaymentStatus.partially_refunded = 3
payment_tag PaymentStatus.refunded = 4

-- `...(wanted && { column: wanted })`
abbrev pub matches : Option ℕ → ℕ → Bool
matches none column = true
matches (some wanted) column = column == wanted

abbrev pub matches_status : Option OrderStatus → OrderStatus → Bool
matches_status none s = true
matches_status (some wanted) s = status_tag s == status_tag wanted

abbrev pub matches_payment : Option PaymentStatus → PaymentStatus → Bool
matches_payment none s = true
matches_payment (some wanted) s = payment_tag s == payment_tag wanted

abbrev pub assigned_as : Option ℕ → Option ℕ → Bool
assigned_as none column = true
assigned_as (some wanted) column = is_some_eq column wanted

-- The clauses on the dates: `startDate: { lt: toDate }` and `endDate: { gt: fromDate }`.
unfoldable pub matches_dates : (from_date to_date : Option ℕ) → RentalOrder → Bool
matches_dates (some from_date) (some to_date) o =
    ltb o.start_date to_date && ltb from_date o.end_date
matches_dates (some from_date) none o = ltb from_date o.end_date
matches_dates none (some to_date) o = ltb o.start_date to_date
matches_dates none none o = true

-- What the query takes from its surroundings: the normalisation of a search, and the order that the
-- database's collation gives to the codes.
pub record Surroundings : Type 0 where
  pub normalize_search_text : String → String
  pub code_le : String → String → Bool

-- An order by a column, and where the column ties, by the id, which always ascends.
abbrev pub ordered : (forth back ids : Bool) → Bool
ordered true true ids = ids
ordered true false ids = true
ordered false back ids = false

-- `ApiPaginatedResult`
pub record OrdersPage : Type 0 where
  pub items : List RentalOrderOut
  pub total : ℕ
  pub page : ℕ
  pub per_page : ℕ

-- The clauses of a filter that is not sent are left out.
module _ (around : Surroundings) where
  unfoldable pub where_clause : GetAllRentalOrders → RentalOrder → Bool
  unfolding matches_dates contains_text
  where_clause q o =
      is_null o.deleted_at
      && matches q.customer_id o.customer_id
      && assigned_as q.assigned_to_id o.assigned_to_id
      && matches_status q.status o.status
      && matches_payment q.payment_status o.payment_status
      && contains_text (around.normalize_search_text q.search) o.search_text
      && matches_dates q.from_date q.to_date o

-- `Number(value) || fallback`
abbrev pub or_default : ℕ → ℕ → ℕ
or_default zero fallback = fallback
or_default (suc n) fallback = suc n

abbrev pub default_page : ℕ
default_page = 1

abbrev pub default_per_page : ℕ
default_per_page = 20

-- `ApiPaginatedResponseDto`
unfoldable pub paginated_response : OrdersPage → Pagination
paginated_response result =
    let current_page = or_default result.page default_page in
    let current_per_page = or_default result.per_page default_per_page in
    let total_page = at_least_one (ceil_div result.total current_per_page) in
    record {
      page = current_page;
      per_page = current_per_page;
      total = result.total;
      count = length result.items;
      total_page = total_page;
      prev_page = if ltb 1 current_page then some (current_page - 1) else none;
      next_page = if ltb current_page total_page then some (current_page + 1) else none;
    }

module _ (around : Surroundings) (filled : Filled) where
  abbrev pub column_le : RentalOrderSortBy → RentalOrder → RentalOrder → Bool
  column_le RentalOrderSortBy.created_at a b = leb (filled.created_at a) (filled.created_at b)
  column_le RentalOrderSortBy.updated_at a b = leb (filled.updated_at a) (filled.updated_at b)
  column_le RentalOrderSortBy.code a b = around.code_le a.code b.code
  column_le RentalOrderSortBy.start_date a b = leb a.start_date b.start_date
  column_le RentalOrderSortBy.end_date a b = leb a.end_date b.end_date
  column_le RentalOrderSortBy.status a b = leb (status_tag a.status) (status_tag b.status)
  column_le RentalOrderSortBy.payment_status a b =
      leb (payment_tag a.payment_status) (payment_tag b.payment_status)
  column_le RentalOrderSortBy.upfront_total a b = leb a.totals.upfront_total b.totals.upfront_total
  column_le RentalOrderSortBy.remaining_total a b = leb a.remaining_total b.remaining_total

  -- `orderBy: [{ [sortBy]: sort }, { id: 'asc' }]`
  unfoldable pub order_by : RentalOrderSortBy → SortOrder → RentalOrder → RentalOrder → Bool
  order_by column SortOrder.asc a b =
      ordered (column_le column a b) (column_le column b a) (leb a.id b.id)
  order_by column SortOrder.desc a b =
      ordered (column_le column b a) (column_le column a b) (leb a.id b.id)

  -- The rows of `findMany`, before `skip` and `take`.
  unfoldable pub selected_orders : GetAllRentalOrders → World → List RentalOrder
  unfolding order_by where_clause
  selected_orders q w =
      sort_by (order_by q.sort_by q.sort) (keep (where_clause around q) w.rentals.orders)

  unfoldable pub get_all_rental_orders : GetAllRentalOrders → World → Result OrdersPage
  unfolding selected_orders page_of map_result to_rental_order_out
  get_all_rental_orders q w =
      map_result (to_rental_order_out filled w) (page_of q.page q.per_page (selected_orders q w))
      >>= λ items. ok record {
        items = items;
        total = count (where_clause around q) w.rentals.orders;
        page = q.page;
        per_page = q.per_page;
      }

module _ (filled : Filled) where
  unfoldable pub get_rental_order_by_id : ℕ → World → Result RentalOrderOut
  unfolding find_existing_rental_order to_rental_order_out
  get_rental_order_by_id id w =
      find_existing_rental_order id w >>= λ o. to_rental_order_out filled w o
