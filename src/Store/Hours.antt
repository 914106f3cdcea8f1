-- ===== src/Store/Hours.antt =====
-- src/modules/store-business-hours/store-business-hours.service.ts: one row for each day of the week,
-- read through the cache. The wall clock of the server turns an instant into a weekday and a time of
-- day: `getDay`, `getHours` and `getMinutes` depend on the server's time zone, so they are parameters.
-- Instants stand for the ISO texts that the cache holds.
pub mod Clock
pub mod Check
pub mod Weekly
use Clock.{to_minutes, lt_number, ge_number}
use rental_be_nest.Prelude.{
  ℕ, ◌+◌, ◌*◌, ◌≡◌, Bool, true, false, not, ◌&&◌, ◌||◌, Option, none, some, List, [], ◌∷◌, map,
  String, ltb, leb, every, includes, unique, length, map_get, sort_by, ◌==◌, if◌then◌else◌, any,
  ◌++◌,
}
use rental_be_nest.Result.{
  Result, ok, err, Error, bad_request, require, rental_order_store_closed,
  store_business_hours_invalid, ◌>>◌,
}
use rental_be_nest.Store.Cache.{Redis, Cell, get_or_set_json, delete_best_effort}

-- `UpdateStoreBusinessHourItemDto`
pub record BusinessHourItem : Type 0 where
  pub day_of_week : ℕ
  pub open_time : String
  pub close_time : String
  pub is_open : Bool

pub record BusinessHour : Type 0 where
  pub item : BusinessHourItem
  pub open item use *
  pub created_at : ℕ
  pub updated_at : ℕ

-- The table, and the content of `rental:store:business-hours`.
pub record HoursState : Type 0 where
  pub rows : List BusinessHour
  pub cell : Cell (List BusinessHour)

pub record WallClock : Type 0 where
  pub get_day : ℕ → ℕ
  pub get_hours : ℕ → ℕ
  pub get_minutes : ℕ → ℕ

-- The loop of `validateBusinessHours`: an open day that closes no later than it opens is refused.
abbrev pub is_backward : BusinessHourItem → Bool
is_backward item =
    item.is_open && ge_number (to_minutes item.open_time) (to_minutes item.close_time)

-- `dayOfWeeks.size === 7`, and each of the seven days is in it
unfoldable pub has_every_day : List ℕ → Bool
has_every_day days = length days == 7 && every (includes days) (0 ∷ 1 ∷ 2 ∷ 3 ∷ 4 ∷ 5 ∷ 6 ∷ [])

abbrev pub days_of : List BusinessHourItem → List ℕ
days_of items = map (λ (i : BusinessHourItem). i.day_of_week) items

unfoldable pub validate_business_hours : List BusinessHourItem → Result (Unit {0})
unfolding has_every_day
validate_business_hours items = do
  require (has_every_day (unique (days_of items))) (bad_request store_business_hours_invalid)
  require (not (any is_backward items)) (bad_request store_business_hours_invalid)

-- An upsert on the day, the table's primary key.
abbrev patch_day : ℕ → BusinessHourItem → BusinessHour → BusinessHour
patch_day now item row =
    if row.day_of_week == item.day_of_week
    then record row { item = item; updated_at = now }
    else row

abbrev new_day : ℕ → BusinessHourItem → BusinessHour
new_day now item = record { item = item; created_at = now; updated_at = now }

unfoldable pub has_day : ℕ → List BusinessHour → Bool
has_day day rows = any (λ (r : BusinessHour). r.day_of_week == day) rows

unfoldable pub upsert_day : ℕ → BusinessHourItem → List BusinessHour → List BusinessHour
unfolding has_day
upsert_day now item rows =
    if has_day item.day_of_week rows
    then map (patch_day now item) rows
    else rows ++ new_day now item ∷ []

-- An upsert whose `update` is empty.
unfoldable pub insert_day : ℕ → BusinessHourItem → List BusinessHour → List BusinessHour
unfolding has_day
insert_day now item rows =
    if has_day item.day_of_week rows then rows else rows ++ new_day now item ∷ []

unfoldable pub upsert_days : ℕ → List BusinessHourItem → List BusinessHour → List BusinessHour
unfolding upsert_day
upsert_days now [] rows = rows
upsert_days now (item ∷ items) rows = upsert_days now items (upsert_day now item rows)

unfoldable pub insert_days : ℕ → List BusinessHourItem → List BusinessHour → List BusinessHour
unfolding insert_day
insert_days now [] rows = rows
insert_days now (item ∷ items) rows = insert_days now items (insert_day now item rows)

unfoldable pub update_store_business_hours :
    Redis → ℕ → List BusinessHourItem → HoursState → Result HoursState
unfolding validate_business_hours upsert_days delete_best_effort
update_store_business_hours redis now items s = do
  validate_business_hours items
  ok (record { rows = upsert_days now items s.rows; cell = delete_best_effort redis s.cell })

abbrev weekday : ℕ → BusinessHourItem
weekday day = record {
  day_of_week = day;
  open_time = "08:00";
  close_time = "20:00";
  is_open = true;
}

abbrev pub default_business_hours : List BusinessHourItem
default_business_hours =
    record { day_of_week = 0; open_time = "08:00"; close_time = "18:00"; is_open = false }
    ∷ weekday 1
    ∷ weekday 2
    ∷ weekday 3
    ∷ weekday 4
    ∷ weekday 5
    ∷ record { day_of_week = 6; open_time = "08:00"; close_time = "18:00"; is_open = true }
    ∷ []

-- The rows after `ensureDefaultBusinessHours`, and whether it has deleted the key.
unfoldable pub ensure_default_business_hours : ℕ → List BusinessHour → List BusinessHour × Bool
unfolding insert_days
ensure_default_business_hours now rows =
    if leb 7 (length rows)
    then (rows, false)
    else (insert_days now default_business_hours rows, true)

abbrev pub by_day : BusinessHour → BusinessHour → Bool
by_day a b = leb a.day_of_week b.day_of_week

-- The loader of `getCachedBusinessHours`.
unfoldable pub load_business_hours :
    ℕ → List BusinessHour → Option (List BusinessHour) × List BusinessHour × Bool
unfolding ensure_default_business_hours
load_business_hours now rows =
    let (all, drops) = ensure_default_business_hours now rows in
    (some (sort_by by_day all), all, drops)

abbrev pub loaded_rows : Option (List BusinessHour) → List BusinessHour
loaded_rows none = []
loaded_rows (some rows) = rows

unfoldable pub get_cached_business_hours : Redis → ℕ → HoursState → List BusinessHour × HoursState
unfolding get_or_set_json load_business_hours
get_cached_business_hours redis now s =
    let (value, cell, rows) = get_or_set_json redis (load_business_hours now) s.cell s.rows in
    (loaded_rows value, record { rows = rows; cell = cell })

module _ (clock : WallClock) where
  -- The test of `assertDateWithinBusinessHours` on the row of the date's day.
  unfoldable pub is_within : ℕ → Option BusinessHour → Bool
  is_within date none = false
  is_within date (some row) =
      let minutes = some (clock.get_hours date * 60 + clock.get_minutes date) in
      row.is_open
      && not (
          lt_number minutes (to_minutes row.open_time)
          || lt_number (to_minutes row.close_time) minutes)

  unfoldable pub assert_date_within_business_hours : ℕ → List BusinessHour → Result (Unit {0})
  unfolding is_within
  assert_date_within_business_hours date rows =
      require (is_within date (map_get (λ r. r.day_of_week) rows (clock.get_day date)))
        (bad_request rental_order_store_closed)

  -- `assertRentalTimeWithinBusinessHours`, once the rows are read
  unfoldable pub assert_rental_time : ℕ → ℕ → List BusinessHour → Result (Unit {0})
  unfolding assert_date_within_business_hours
  assert_rental_time start_date end_date rows = do
    assert_date_within_business_hours start_date rows
    assert_date_within_business_hours end_date rows

  unfoldable pub assert_rental_time_within_business_hours :
      Redis → ℕ → ℕ → ℕ → HoursState → Result (Unit {0}) × HoursState
  unfolding get_cached_business_hours assert_rental_time
  assert_rental_time_within_business_hours redis now start_date end_date s =
      let (rows, s') = get_cached_business_hours redis now s in
      (assert_rental_time start_date end_date rows, s')
