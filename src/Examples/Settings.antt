-- ===== src/Examples/Settings.antt =====
-- The store's settings at concrete inputs.
use rental_be_nest.Prelude.{
  ℕ, ◌≡◌, ◌↔◌, refl, true, false, none, some, List, [], ◌∷◌, map, unique, arith,
}
use rental_be_nest.Result.{ok, or_fail, not_found, rental_policy_not_found}
use rental_be_nest.Store.Cache.{Redis, missing, cached, invalid, get_or_set_json}
use rental_be_nest.Store.Cache.Coherence.{Agrees, get_or_set_json-Agrees}
use rental_be_nest.Store.Policy.{
  PolicyState, load_policy, get_default_policy_for_order, update_rental_policy,
}
use rental_be_nest.Store.Policy.Reading.{
  IsCoherent, get_default_policy_for_order_reads, update-get_default_policy,
}
use rental_be_nest.Store.Hours.{
  BusinessHourItem, HoursState, assert_rental_time, update_store_business_hours, upsert_days,
  is_backward,
}
use rental_be_nest.Store.Hours.Clock.{to_minutes}
use rental_be_nest.Store.Hours.Check.{IsOpenAt, assert_rental_time_iff}
use rental_be_nest.Store.Hours.Weekly.{item_at, requested, update_store_business_hours_lem}
use rental_be_nest.Store.Closures.{
  ClosureType, StoreClosure, UpdateStoreClosure, assert_no_closure_overlap, update_store_closure,
}
use rental_be_nest.Store.Closures.Overlap.{
  AllApart, AllOrdered, assert_no_closure_overlap_iff, update-AllOrdered,
}
use rental_be_nest.Examples.Data.{clock, redis, policy, monday}

abbrev failing : Redis
failing = record { get_fails = true; set_fails = true; del_fails = true }

get_or_set_json-Agrees_example :
    ((get_or_set_json failing load_policy invalid (some policy)).0 ≡ some policy)
    × Agrees (get_or_set_json failing load_policy invalid (some policy)).1 (some policy)
get_or_set_json-Agrees_example = get_or_set_json-Agrees failing load_policy invalid (some policy) tt

abbrev stored : PolicyState
stored = record { row = some policy; cell = cached policy }

get_default_policy_for_order_reads_example :
    ((get_default_policy_for_order failing stored).0
      ≡ or_fail (some policy) (not_found rental_policy_not_found))
    × ((get_default_policy_for_order failing stored).1.row ≡ some policy)
    × IsCoherent (get_default_policy_for_order failing stored).1
get_default_policy_for_order_reads_example = get_default_policy_for_order_reads failing stored refl

update-get_default_policy_example :
    (get_default_policy_for_order failing
      (update_rental_policy redis 41 2000
        (record { name = none; booking_hold_amount_per_unit = none; turnaround_minutes = some 90 })
        stored).1).0
    ≡ ok
        (update_rental_policy redis 41 2000
          (record {
            name = none;
            booking_hold_amount_per_unit = none;
            turnaround_minutes = some 90;
          })
          stored).0
update-get_default_policy_example =
    update-get_default_policy redis failing 41 2000
      (record { name = none; booking_hold_amount_per_unit = none; turnaround_minutes = some 90 })
      stored refl

assert_rental_time_iff_example :
    (assert_rental_time clock 3600000 10800000 (monday ∷ []) ≡ ok tt)
    ↔ (IsOpenAt clock (monday ∷ []) 3600000 × IsOpenAt clock (monday ∷ []) 10800000)
assert_rental_time_iff_example = assert_rental_time_iff clock (monday ∷ []) 3600000 10800000

abbrev open_on : ℕ → BusinessHourItem
open_on n = record { day_of_week = n; open_time = "08:00"; close_time = "20:00"; is_open = true }

abbrev week : List BusinessHourItem
week = map open_on (0 ∷ 1 ∷ 2 ∷ 3 ∷ 4 ∷ 5 ∷ 6 ∷ [])

abbrev before : HoursState
before = record { rows = monday ∷ []; cell = cached (monday ∷ []) }

abbrev after : HoursState
after = record { rows = upsert_days 3000 week (monday ∷ []); cell = missing }

updated : update_store_business_hours redis 3000 week before ≡ ok after
unfolding update_store_business_hours unique to_minutes
updated = refl

update_store_business_hours_example :
    (item : BusinessHourItem) × (item_at 4 after.rows ≡ some item)
    × (requested 4 week ≡ some item)
    × (item.day_of_week ≡ 4)
    × (is_backward item ≡ false)
update_store_business_hours_example =
    update_store_business_hours_lem redis 3000 4 week before {s' = after} updated (omega arith)

abbrev closure : StoreClosure
closure = record {
  id = 60;
  start_date = 100;
  end_date = 200;
  type = ClosureType.holiday;
  reason = none;
  created_at = 0;
  updated_at = 0;
  deleted_at = none;
}

assert_no_closure_overlap_iff_example :
    (assert_no_closure_overlap 200 300 (closure ∷ []) ≡ ok tt) ↔ AllApart 200 300 (closure ∷ [])
assert_no_closure_overlap_iff_example = assert_no_closure_overlap_iff 200 300 (closure ∷ [])

abbrev longer : UpdateStoreClosure
longer = record { start_date = none; end_date = some 250; type = none; reason = none }

abbrev longer_rows : List StoreClosure
longer_rows = record closure { end_date = 250; updated_at = 5 } ∷ []

lengthened : update_store_closure 60 5 longer (closure ∷ []) ≡ ok longer_rows
unfolding update_store_closure
lengthened = refl

update-AllOrdered_example : AllOrdered longer_rows
update-AllOrdered_example =
    update-AllOrdered 60 5 longer (closure ∷ []) {cs' = longer_rows} (tt, tt) (omega arith, tt)
      lengthened
