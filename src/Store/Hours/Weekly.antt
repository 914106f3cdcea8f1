-- ===== src/Store/Hours/Weekly.antt =====
-- What the table of weekly hours holds after an update.
use rental_be_nest.Prelude.{
  ℕ, ◌<◌, ◌≡◌, refl, sym, ap, ◌∙◌, subst, zero, true, false, not, Option, none, some, List, [], ◌∷◌,
  ◌++◌, map, arith, any, includes, unique, includes-unique, map_get, ◌==◌, ==_iff, if◌then◌else◌,
  inl, inr, Bool-cases, Option-cases, suc,
}
use rental_be_nest.Result.{
  ok, bind-ok, require-ok, require, bad_request, store_business_hours_invalid,
}
use rental_be_nest.Store.Cache.{Redis}
use rental_be_nest.Store.Hours.{
  BusinessHour, BusinessHourItem, HoursState, has_day, patch_day, new_day, upsert_day, upsert_days,
  is_backward, has_every_day, days_of, validate_business_hours, update_store_business_hours,
}

-- The hours that the table gives for a day, as `new Map(rows…).get(day)` finds them.
abbrev pub item_at : ℕ → List BusinessHour → Option BusinessHourItem
item_at day rows = elim (map_get (λ (r : BusinessHour). r.day_of_week) rows day) [
  | none ↦ none
  | some r ↦ some r.item
]

abbrev pub requested : ℕ → List BusinessHourItem → Option BusinessHourItem
requested day items = map_get (λ (i : BusinessHourItem). i.day_of_week) items day

item_at-patch_day :
    (day now : ℕ) (item : BusinessHourItem) (rows : List BusinessHour)
    → item_at day (map (patch_day now item) rows) ≡ (
        if item.day_of_week == day
        then (if has_day day rows then some item else none)
        else item_at day rows)
unfolding has_day
item_at-patch_day day now item [] = ground arith
item_at-patch_day day now item (r ∷ rows) = ground (arith, item_at-patch_day day now item rows)

item_at-append :
    (day now : ℕ) (item : BusinessHourItem) (rows : List BusinessHour)
    → item_at day (rows ++ new_day now item ∷ [])
      ≡ (if item.day_of_week == day then some item else item_at day rows)
item_at-append day now item [] = ground arith
item_at-append day now item (r ∷ rows) = ground (arith, item_at-append day now item rows)

item_at-upsert_day :
    (day now : ℕ) (item : BusinessHourItem) (rows : List BusinessHour)
    → item_at day (upsert_day now item rows)
      ≡ (if item.day_of_week == day then some item else item_at day rows)
unfolding upsert_day
item_at-upsert_day day now item rows = elim (Bool-cases (has_day item.day_of_week rows)) [
  | inl there ↦
      rw (there, upsert_day)
        (item_at-patch_day day now item rows ∙ elim (Bool-cases (item.day_of_week == day)) [
          | inl t ↦
              let here =
                subst (λ d. has_day d rows ≡ true) ((==_iff item.day_of_week day).0 t) there in
              rw (t, here) refl
          | inr f ↦ rw f refl
        ])
  | inr new ↦ rw (new, upsert_day) (item_at-append day now item rows)
]

abbrev pub first_of_two :
    Option BusinessHourItem → Option BusinessHourItem → Option BusinessHourItem
first_of_two (some item) other = some item
first_of_two none other = other

-- A run of upserts leaves for each day the request's last entry of that day, if it has one, and
-- what the table gave before if not.
pub item_at-upsert_days :
    (day now : ℕ) (items : List BusinessHourItem) (rows : List BusinessHour)
    → item_at day (upsert_days now items rows)
      ≡ first_of_two (requested day items) (item_at day rows)
unfolding upsert_days
item_at-upsert_days day now [] rows = refl
item_at-upsert_days day now (item ∷ items) rows =
    item_at-upsert_days day now items (upsert_day now item rows)
    ∙ merged (requested day items) (item_at-upsert_day day now item rows)
  where
    merged :
        (later : Option BusinessHourItem)
        → item_at day (upsert_day now item rows)
          ≡ (if item.day_of_week == day then some item else item_at day rows)
        → first_of_two later (item_at day (upsert_day now item rows))
          ≡ first_of_two
              (elim later [
                | some y ↦ some y
                | none ↦ if item.day_of_week == day then some item else none
              ])
              (item_at day rows)
    merged (some y) e = refl
    merged none e =
        e ∙ elim (Bool-cases (item.day_of_week == day)) [ inl t ↦ rw t refl | inr f ↦ rw f refl ]

requested_of_includes :
    (day : ℕ) (items : List BusinessHourItem)
    → includes (days_of items) day ≡ true
    → (item : BusinessHourItem) × (requested day items ≡ some item)
requested_of_includes day [] h = cc
requested_of_includes day (i ∷ items) h = elim (Option-cases (requested day items)) [
  | inl missed ↦ elim (Bool-cases (i.day_of_week == day)) [
    | inl t ↦ (i, ground arith)
    | inr f ↦
        let (item, found) = requested_of_includes day items (ground arith) in absurd (ground arith)
  ]
  | inr (item, found) ↦ (item, ground arith)
]

validate-ok :
    (items : List BusinessHourItem)
    → validate_business_hours items ≡ ok tt
    → (has_every_day (unique (days_of items)) ≡ true) × (any is_backward items ≡ false)
unfolding validate_business_hours
validate-ok items e =
    let (u, complete, forward) =
      bind-ok
        (require (has_every_day (unique (days_of items)))
          (bad_request store_business_hours_invalid))
        _ e in
    (require-ok _ _ complete, ground (arith, require-ok (not (any is_backward items)) _ forward))

includes-day :
    (days : List ℕ) (day : ℕ) → has_every_day days ≡ true → day < 7 → includes days day ≡ true
unfolding has_every_day
includes-day days zero h lt = ground arith
includes-day days (suc zero) h lt = ground arith
includes-day days (suc (suc zero)) h lt = ground arith
includes-day days (suc (suc (suc zero))) h lt = ground arith
includes-day days (suc (suc (suc (suc zero)))) h lt = ground arith
includes-day days (suc (suc (suc (suc (suc zero))))) h lt = ground arith
includes-day days (suc (suc (suc (suc (suc (suc zero)))))) h lt = ground arith
includes-day days (suc (suc (suc (suc (suc (suc (suc n))))))) h lt = absurd (omega arith)

requested-day :
    (day : ℕ) (items : List BusinessHourItem) {item : BusinessHourItem}
    → any is_backward items ≡ false
    → requested day items ≡ some item
    → (item.day_of_week ≡ day) × (is_backward item ≡ false)
requested-day day [] b e = cc
requested-day day (i ∷ items) {item} b e = elim (Option-cases (requested day items)) [
  | inl missed ↦ ground arith
  | inr (x, found) ↦
      let same : requested day items ≡ some item = ground arith in
      requested-day day items {item = item} (ground arith) same
]

-- After an accepted update each of the seven days has the request's hours for it, and a day on which
-- the store is open does not close at or before its opening time.
pub update_store_business_hours_lem :
    (redis : Redis) (now day : ℕ) (items : List BusinessHourItem) (s : HoursState) {s' : HoursState}
    → update_store_business_hours redis now items s ≡ ok s'
    → day < 7
    → (item : BusinessHourItem) × (item_at day s'.rows ≡ some item)
      × (requested day items ≡ some item)
      × (item.day_of_week ≡ day)
      × (is_backward item ≡ false)
unfolding update_store_business_hours
update_store_business_hours_lem redis now day items s {s'} e lt =
    let (u, valid, done) = bind-ok (validate_business_hours items) _ e in
    let (complete, forward) = validate-ok items valid in
    let listed = includes-unique (days_of items) day in
    let there = includes-day (unique (days_of items)) day complete lt in
    let (item, found) = requested_of_includes day items (sym listed ∙ there) in
    let (same, ordered) = requested-day day items {item = item} forward found in
    let kept : item_at day (upsert_days now items s.rows) ≡ some item =
      item_at-upsert_days day now items s.rows
      ∙ ap (λ r. first_of_two r (item_at day s.rows)) found in
    let table : s'.rows ≡ upsert_days now items s.rows = ground arith in
    (item, ap (item_at day) table ∙ kept, found, same, ordered)
