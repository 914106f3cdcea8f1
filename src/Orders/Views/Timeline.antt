-- ===== src/Orders/Views/Timeline.antt =====
-- `getAvailabilityTimeline`.
use rental_be_nest.Prelude.{
  ℕ, String, Bool, ◌&&◌, ◌||◌, Option, List, map, keep, find, length, ltb, leb, ◌==◌, sort_by,
  is_some_eq,
}
use rental_be_nest.Result.{ok}
use rental_be_nest.Exec.{Exec, pure, reads, lift, ◌>>=◌, ◌>>◌}
use rental_be_nest.World.{World}
use rental_be_nest.Catalog.{Catalog, AssetUnit, AssetStatus, AssetCondition, Product, is_null}
use rental_be_nest.Orders.Tables.{OrderStatus, Rentals}
use rental_be_nest.Orders.Availability.{validate_rental_time}
use rental_be_nest.Orders.Views.Paging.{Pagination, page_of, build_pagination}
use rental_be_nest.Orders.Views.Assets.{BookedRow, booked_rows}
use rental_be_nest.Orders.Views.{AvailabilityQuery, Surroundings, contains_text}

pub record TimelineBlock : Type 0 where
  pub order_id : ℕ
  pub order_code : String
  pub status : OrderStatus
  pub customer_name : String
  pub start_date : ℕ
  pub end_date : ℕ
  pub blocked_end_date : ℕ

pub record TimelineRow : Type 0 where
  pub asset_unit_id : ℕ
  pub serial_number : String
  pub product : Option Product
  pub status : AssetStatus
  pub condition : AssetCondition
  pub blocks : List TimelineBlock

pub record TimelinePage : Type 0 where
  pub items : List TimelineRow
  pub pagination : Pagination
  pub start_date : ℕ
  pub end_date : ℕ

abbrev pub block_of : BookedRow → TimelineBlock
block_of r = record {
  order_id = r.order.id;
  order_code = r.order.code;
  status = r.order.status;
  customer_name = r.order.customer.name;
  start_date = r.order.start_date;
  end_date = r.order.end_date;
  blocked_end_date = r.order.blocked_end_date;
}

-- `orderBy: [{ order: { startDate: 'asc' } }, { order: { id: 'asc' } }]`
abbrev pub by_start : BookedRow → BookedRow → Bool
by_start a b =
    ltb a.order.start_date b.order.start_date
    || (a.order.start_date == b.order.start_date && leb a.order.id b.order.id)

module _ (around : Surroundings) (q : AvailabilityQuery) where
  -- The rows of the query, whose units may be inactive.
  unfoldable pub timeline_units : Catalog → List AssetUnit
  unfolding contains_text
  timeline_units catalog = sort_by around.units_by_product (
      keep
        (λ (u : AssetUnit).
          is_null u.deleted_at
          && contains_text (around.normalize_search_text q.search) u.search_text)
        catalog.asset_units)

  unfoldable pub timeline_row : Catalog → List BookedRow → AssetUnit → TimelineRow
  timeline_row catalog rows u = record {
    asset_unit_id = u.id;
    serial_number = u.serial_number;
    product = find (λ (p : Product). p.id == u.product_id) catalog.products;
    status = u.status;
    condition = u.condition;
    blocks = map block_of (keep (λ (r : BookedRow). is_some_eq r.asset_unit_id u.id) rows);
  }

  -- The window of a timeline has no turnaround of its own.
  unfoldable pub timeline_rows : Catalog → Rentals → List TimelineRow
  unfolding timeline_units timeline_row booked_rows page_of
  timeline_rows catalog rentals =
      let units = page_of q.page q.per_page (timeline_units catalog) in
      let rows = sort_by by_start (
        booked_rows rentals.orders rentals.items (map (λ (u : AssetUnit). u.id) units) q.start_date
          q.end_date q.exclude_order_id) in
      map (timeline_row catalog rows) units

  unfoldable pub get_availability_timeline : Exec World TimelinePage
  unfolding validate_rental_time timeline_units timeline_rows build_pagination
  get_availability_timeline = do
    lift (validate_rental_time q.start_date q.end_date)
    items ← reads (λ w. ok (timeline_rows w.catalog w.rentals))
    total ← reads (λ w. ok (length (timeline_units w.catalog)))
    pure record {
      items = items;
      pagination = build_pagination q.page q.per_page total (length items);
      start_date = q.start_date;
      end_date = q.end_date;
    }
