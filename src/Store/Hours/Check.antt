-- ===== src/Store/Hours/Check.antt =====
-- When a rental fits the weekly hours.
use rental_be_nest.Prelude.{
  ℕ, ◌+◌, ◌*◌, ◌≤◌, ◌≡◌, refl, ◌↔◌, true, false, Option, none, some, List, map_get, arith,
  Option-cases, inl, inr,
}
use rental_be_nest.Result.{ok, require-ok, bind-ok}
use rental_be_nest.Store.Hours.{
  BusinessHour, WallClock, is_within, assert_rental_time, assert_date_within_business_hours,
}
use rental_be_nest.Store.Hours.Clock.{to_minutes, lt_number}

-- A bound that is NaN bounds nothing.
abbrev pub NotBefore : Option ℕ → ℕ → Type 0
NotBefore none m = Unit
NotBefore (some o) m = o ≤ m

abbrev pub NotAfter : Option ℕ → ℕ → Type 0
NotAfter none m = Unit
NotAfter (some c) m = m ≤ c

-- At an instant the store is open: the row of its day says so, and the time of day is neither before
-- the opening time nor after the closing time.
pub record IsOpenAt (clock : WallClock) (rows : List BusinessHour) (date : ℕ) : Type 0 where
  pub row : BusinessHour
  pub found : map_get (λ (r : BusinessHour). r.day_of_week) rows (clock.get_day date) ≡ some row
  pub is_open : row.is_open ≡ true
  pub opened :
      NotBefore (to_minutes row.open_time) (clock.get_hours date * 60 + clock.get_minutes date)
  pub not_closed :
      NotAfter (to_minutes row.close_time) (clock.get_hours date * 60 + clock.get_minutes date)

not_before : (o : Option ℕ) (m : ℕ) → lt_number (some m) o ≡ false → NotBefore o m
not_before none m h = tt
not_before (some o) m h = ground arith

not_after : (c : Option ℕ) (m : ℕ) → lt_number c (some m) ≡ false → NotAfter c m
not_after none m h = tt
not_after (some c) m h = ground arith

NotBefore-test : (o : Option ℕ) (m : ℕ) → NotBefore o m → lt_number (some m) o ≡ false
NotBefore-test none m h = refl
NotBefore-test (some o) m h = ground arith

NotAfter-test : (c : Option ℕ) (m : ℕ) → NotAfter c m → lt_number c (some m) ≡ false
NotAfter-test none m h = refl
NotAfter-test (some c) m h = ground arith

module _ (clock : WallClock) (rows : List BusinessHour) where
  is_within-IsOpenAt :
      (date : ℕ)
      → is_within clock date
          (map_get (λ (r : BusinessHour). r.day_of_week) rows (clock.get_day date))
        ≡ true
      → IsOpenAt clock rows date
  unfolding is_within
  is_within-IsOpenAt date h =
      elim (Option-cases
        (map_get (λ (r : BusinessHour). r.day_of_week) rows (clock.get_day date))) [
          | inl missed ↦ cc (rw (missed, is_within) at h)
          | inr (row, found) ↦
              let m = clock.get_hours date * 60 + clock.get_minutes date in
              let h' : is_within clock date (some row) ≡ true = rw found at h in
              record {
                row = row;
                found = found;
                is_open = ground arith;
                opened = not_before (to_minutes row.open_time) m (ground arith);
                not_closed = not_after (to_minutes row.close_time) m (ground arith);
              }
        ]

  IsOpenAt-is_within :
      (date : ℕ)
      → IsOpenAt clock rows date
      → is_within clock date
          (map_get (λ (r : BusinessHour). r.day_of_week) rows (clock.get_day date))
        ≡ true
  unfolding is_within
  IsOpenAt-is_within date o =
      let m = clock.get_hours date * 60 + clock.get_minutes date in
      rw o.found (
        rw
          (
            o.is_open,
            NotBefore-test (to_minutes o.row.open_time) m o.opened,
            NotAfter-test (to_minutes o.row.close_time) m o.not_closed,
          )
          refl)

  -- A rental is accepted exactly when the store is open at its start and at its end; what lies
  -- between is not looked at.
  pub assert_rental_time_iff :
      (start_date end_date : ℕ)
      → (assert_rental_time clock start_date end_date rows ≡ ok tt)
        ↔ (IsOpenAt clock rows start_date × IsOpenAt clock rows end_date)
  unfolding assert_rental_time
  assert_rental_time_iff start_date end_date = (
    λ h.
        let (u, first, last) =
          bind-ok (assert_date_within_business_hours clock start_date rows) _ h in
        (
          is_within-IsOpenAt start_date (require-ok _ _ first),
          is_within-IsOpenAt end_date (require-ok _ _ last),
        ),
    λ (first, last).
        rw (IsOpenAt-is_within start_date first) (rw (IsOpenAt-is_within end_date last) refl),
  )
