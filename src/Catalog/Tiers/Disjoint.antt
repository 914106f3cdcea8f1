-- ===== src/Catalog/Tiers/Disjoint.antt =====
-- What `validateRentalPriceTiers` accepts: tiers that each hold a day and that share none.
use rental_be_nest.Prelude.{
  ℕ, ◌≤◌, ◌<◌, ◌≡◌, refl, ◌↔◌, Bool, true, false, not, ◌&&◌, ltb, sym, subst, Memᴰ, Option, none,
  some, List, [], ◌∷◌, leb, count, sort_by, count-sort_by, IsSorted, sort_by-IsSorted, arith, inl,
  inr, Bool-cases,
}
use rental_be_nest.Result.{ok}
use rental_be_nest.Catalog.Tiers.{
  MaxDays, undefined, null, days, PriceTierIn, ends_before_start, reaches, check_sorted,
  by_min_days, validate_rental_price_tiers,
}

-- The last day of a tier: there is none where the number is left out, and none where it is null.
abbrev pub last_day : MaxDays → Option ℕ
last_day undefined = none
last_day null = none
last_day (days m) = some m

-- A day lies between the first and the last day of a tier.
abbrev pub within : (first : ℕ) → Option ℕ → ℕ → Bool
within first none n = not (ltb n first)
within first (some last) n = not (ltb n first) && not (ltb last n)

abbrev pub holds_day : ℕ → PriceTierIn → Bool
holds_day n tier = within tier.min_days (last_day tier.max_days) n

-- A tier whose last day is given holds its first day; a tier whose last day is null begins at day 0.
abbrev pub WellFormed : PriceTierIn → Type 0
WellFormed tier = elim tier.max_days [
  | undefined ↦ Unit
  | null ↦ tier.min_days ≡ 0
  | days m ↦ tier.min_days ≤ m
]

-- The days that the code takes a tier for.
abbrev pub includes_day : ℕ → PriceTierIn → Bool
includes_day n tier = leb tier.min_days n && reaches tier.max_days n

-- Every tier of the list begins after a day.
abbrev BeginAfter : ℕ → List PriceTierIn → Type 0
BeginAfter n [] = Unit
BeginAfter n (tier ∷ tiers) = (n < tier.min_days) × BeginAfter n tiers

-- A tier whose last day is before its first.
abbrev is_malformed : PriceTierIn → Bool
is_malformed tier = ends_before_start tier.max_days tier.min_days

check_sorted-tail :
    (tier next : PriceTierIn) (rest : List PriceTierIn)
    → check_sorted (tier ∷ next ∷ rest) ≡ ok tt
    → (is_malformed tier ≡ false)
      × (reaches tier.max_days next.min_days ≡ false)
      × (check_sorted (next ∷ rest) ≡ ok tt)
unfolding check_sorted
check_sorted-tail tier next rest h = ground arith

check_sorted-malformed :
    (tiers : List PriceTierIn) → check_sorted tiers ≡ ok tt → count is_malformed tiers ≡ 0
unfolding check_sorted
check_sorted-malformed [] h = refl
check_sorted-malformed (tier ∷ []) h = ground arith
check_sorted-malformed (tier ∷ next ∷ rest) h =
    let (well, _, later) = check_sorted-tail tier next rest h in
    rw well (check_sorted-malformed (next ∷ rest) later)

-- A tier that ends before the next begins lies wholly before it.
next_begins_after :
    (m : MaxDays) (first next n : ℕ)
    → ends_before_start m first ≡ false
    → reaches m next ≡ false
    → (first < next) × (reaches m n ≡ true → n < next)
unfolding ends_before_start reaches
next_begins_after undefined first next n h k = cc
next_begins_after null first next n h k = cc
next_begins_after (days m) first next n h k = (ground arith, λ r. ground arith)

none_before :
    (tier : PriceTierIn) (tiers : List PriceTierIn) (n : ℕ)
    → check_sorted (tier ∷ tiers) ≡ ok tt
    → n < tier.min_days
    → count (includes_day n) (tier ∷ tiers) ≡ 0
none_before tier [] n h k = ground arith
none_before tier (next ∷ rest) n h k =
    let (well, apart, later) = check_sorted-tail tier next rest h in
    let (before, _) = next_begins_after tier.max_days tier.min_days next.min_days n well apart in
    let ih = none_before next rest n later (omega arith) in
    let out : (leb tier.min_days n) ≡ false = ground arith in rw out ih

at_most_one :
    (tiers : List PriceTierIn) (n : ℕ)
    → check_sorted tiers ≡ ok tt
    → count (includes_day n) tiers ≤ 1
at_most_one [] n h = omega arith
at_most_one (tier ∷ []) n h = ground arith
at_most_one (tier ∷ next ∷ rest) n h =
    let (well, apart, later) = check_sorted-tail tier next rest h in
    let (_, after) = next_begins_after tier.max_days tier.min_days next.min_days n well apart in
    elim (Bool-cases (includes_day n tier)) [
      | inl t ↦ rw t (omega (arith, none_before next rest n later (after (ground arith))))
      | inr f ↦ rw f (at_most_one (next ∷ rest) n later)
    ]

-- A well-formed tier holds its own first day, so one that reaches it shares it.
holds_first_day :
    (m : MaxDays) (first : ℕ) → ends_before_start m first ≡ false → reaches m first ≡ true
unfolding ends_before_start reaches
holds_first_day undefined first h = refl
holds_first_day null first h = refl
holds_first_day (days m) first h = ground arith

check_sorted_complete :
    (tiers : List PriceTierIn)
    → IsSorted by_min_days tiers
    → count is_malformed tiers ≡ 0
    → ((n : ℕ) → count (includes_day n) tiers ≤ 1)
    → check_sorted tiers ≡ ok tt
unfolding check_sorted
check_sorted_complete [] s w d = refl
check_sorted_complete (tier ∷ []) s w d = ground arith
check_sorted_complete (tier ∷ next ∷ rest) (le, s) w d =
    let well : is_malformed tier ≡ false = ground arith in
    let well' : is_malformed next ≡ false = ground arith in
    let first = holds_first_day next.max_days next.min_days well' in
    let apart : reaches tier.max_days next.min_days ≡ false = ground (arith, d next.min_days) in
    rw (well, apart)
      (check_sorted_complete (next ∷ rest) s (ground arith) (λ n. ground (arith, d n)))

by_min_days_total : (a b : PriceTierIn) → by_min_days a b ≡ false → by_min_days b a ≡ true
by_min_days_total a b h = ground arith

includes_day-holds_day : (n : ℕ) (tier : PriceTierIn) → includes_day n tier ≡ holds_day n tier
unfolding reaches
includes_day-holds_day n tier = go tier.max_days
  where
    go : (m : MaxDays) → (leb tier.min_days n && reaches m n) ≡ within tier.min_days (last_day m) n
    go undefined = ground arith
    go null = ground arith
    go (days m) = ground arith

malformed-WellFormed : (tier : PriceTierIn) → (is_malformed tier ≡ false) ↔ WellFormed tier
unfolding ends_before_start
malformed-WellFormed tier = go tier.max_days
  where
    go :
        (m : MaxDays)
        → (ends_before_start m tier.min_days ≡ false) ↔ (elim m as (λ _. Type 0) [
          | undefined ↦ Unit
          | null ↦ tier.min_days ≡ 0
          | days m ↦ tier.min_days ≤ m
        ])
    go undefined = (λ h. tt, λ h. refl)
    go null = (λ h. ground arith, λ h. ground arith)
    go (days m) = (λ h. ground arith, λ h. ground arith)

none_malformed :
    (tiers : List PriceTierIn)
    → (count is_malformed tiers ≡ 0) ↔ ((tier : PriceTierIn) → Memᴰ tier tiers → WellFormed tier)
none_malformed [] = (λ h tier m. elim m [ ], λ h. refl)
none_malformed (t ∷ ts) = (
  λ h tier m. elim m [
    | Memᴰ.head e ↦ subst WellFormed (sym e) ((malformed-WellFormed t).0 (ground (arith, h)))
    | Memᴰ.tail k ↦ (none_malformed ts).0 (ground (arith, h)) tier k
  ],
  λ h.
      let well = (malformed-WellFormed t).1 (h t (Memᴰ.head refl)) in
      let rest = (none_malformed ts).1 (λ tier k. h tier (Memᴰ.tail k)) in
      ground (arith, well, rest),
)

pub count_days :
    (n : ℕ) (tiers : List PriceTierIn) → count (includes_day n) tiers ≡ count (holds_day n) tiers
count_days n [] = refl
count_days n (t ∷ ts) = ground (arith, includes_day-holds_day n t, count_days n ts)

-- The tiers of a request are accepted exactly when each of them is well formed and no day, of all days,
-- belongs to two of them. A tier goes from its first day to its last, without end where the last is
-- left out or null. It is well formed when its last day is left out, or is a number not less than its
-- first; with a last day of null, which the request type allows, only when its first day is 0.
pub validate_rental_price_tiers_iff :
    (tiers : List PriceTierIn)
    → (validate_rental_price_tiers (some tiers) ≡ ok tt) ↔ (
        ((tier : PriceTierIn) → Memᴰ tier tiers → WellFormed tier)
        × ((n : ℕ) → count (holds_day n) tiers ≤ 1))
unfolding validate_rental_price_tiers
validate_rental_price_tiers_iff tiers =
    let sorted = sort_by by_min_days tiers in
    let moved = λ (p : PriceTierIn → Bool). count-sort_by by_min_days p tiers in
    (
      λ h. (
        (none_malformed tiers).0
            (omega (arith, moved is_malformed, check_sorted-malformed sorted h)),
        λ n. omega (arith, moved (includes_day n), at_most_one sorted n h, count_days n tiers),
      ),
      λ (w, d).
          let well = (none_malformed tiers).1 w in
          check_sorted_complete sorted (sort_by-IsSorted by_min_days by_min_days_total tiers)
            (omega (arith, moved is_malformed, well))
            (λ n. omega (arith, moved (includes_day n), d n, count_days n tiers)),
    )
