-- ===== src/Orders/Availability/Checked.antt =====
-- What the single tests of the availability check have found when they let a request through.
use rental_be_nest.Prelude.{
  ℕ, ◌≤◌, ◌≡◌, refl, sym, ap, ◌∙◌, subst, Bool, true, false, Option, none, some, List, [], ◌∷◌, map,
  map-Memᴰ, map_get, map_get-Memᴰ, Memᴰ, count, every, every-Memᴰ, includes, includes-unique,
  includes-Memᴰ, is_some_eq, arith, ◌==◌, ==_iff, inl, inr, Bool-cases, Option-cases,
}
use rental_be_nest.Result.{ok}
use rental_be_nest.Exec.{Exec, pure, bind_keeps, ◌>>=◌}
use rental_be_nest.World.{World}
use rental_be_nest.Catalog.{Catalog, AssetUnit, Product, is_assignable}
use rental_be_nest.Catalog.Queries.Found.{IsOffered, active-IsOffered, assignable-Memᴰ}
use rental_be_nest.Store.Hours.{
  WallClock, BusinessHour, get_cached_business_hours, assert_rental_time_within_business_hours,
}
use rental_be_nest.Store.Hours.Check.{IsOpenAt, assert_rental_time_iff}
use rental_be_nest.Orders.Tables.{NormalizedItem, Rentals}
use rental_be_nest.Orders.Availability.{
  EvaluateParams, effective_turnaround, assert_open, read_policy, are_distinct, first_given,
  policy_minutes, all_units_fit, all_products_listed, product_ids_of, asset_unit_ids_of, products,
  asset_units, has_product, unit_is_of, asset_unit_fits,
}

-- The items of a request that name an asset unit.
abbrev pub names_unit : ℕ → NormalizedItem → Bool
names_unit a i = is_some_eq i.asset_unit_id a

-- A unit that a request may name for a product.
pub record IsNameable (units : List AssetUnit) (product_id id : ℕ) : Type 0 where
  pub unit : AssetUnit
  pub mem : Memᴰ unit units
  pub is_it : unit.id ≡ id
  pub of_product : unit.product_id ≡ product_id
  pub assignable : is_assignable unit ≡ true

-- The rows that the service of the business hours reads, from the cache or from the table.
abbrev pub opening_hours : World → List BusinessHour
opening_hours w = (get_cached_business_hours w.redis w.now w.hours).0

pub assert_open-ok :
    (clock : WallClock) (s e : ℕ) (w : World) {u : Unit {0}}
    → (assert_open clock s e w).0 ≡ ok u
    → IsOpenAt clock (opening_hours w) s × IsOpenAt clock (opening_hours w) e
unfolding assert_open assert_rental_time_within_business_hours
assert_open-ok clock s e w h = (assert_rental_time_iff clock (opening_hours w) s e).0 h

read_policy-opening_hours : (w : World) → opening_hours (read_policy w).1 ≡ opening_hours w
unfolding read_policy
read_policy-opening_hours w = refl

turnaround_or_policy-opening_hours :
    (given : Option ℕ) (w : World)
    → opening_hours
        ((elim given as (λ _. Exec World ℕ) [
          | some minutes ↦ pure minutes
          | none ↦ read_policy >>= λ policy. pure policy.turnaround_minutes
        ])
          w).1
      ≡ opening_hours w
unfolding pure
turnaround_or_policy-opening_hours (some n) w = refl
turnaround_or_policy-opening_hours none w =
    bind_keeps (λ (s : World). opening_hours s ≡ opening_hours w) read_policy
      (λ policy. pure policy.turnaround_minutes) w (read_policy-opening_hours w)
      (λ policy _. read_policy-opening_hours w)

-- The reading of the policy leaves the hours.
pub opening_hours-same :
    (p : EvaluateParams) (w : World) → opening_hours (effective_turnaround p w).1 ≡ opening_hours w
unfolding effective_turnaround
opening_hours-same p w =
    turnaround_or_policy-opening_hours
      (first_given p.turnaround_minutes (policy_minutes p.rental_policy)) w

pub distinct-count :
    (seen : List ℕ) (items : List NormalizedItem) (a : ℕ)
    → are_distinct seen items ≡ true
    → (count (names_unit a) items ≤ 1) × (includes seen a ≡ true → count (names_unit a) items ≡ 0)
unfolding are_distinct
distinct-count seen [] a h = (omega arith, λ _. refl)
distinct-count seen (i ∷ items) a h = elim (Option-cases i.asset_unit_id) [
  | inl missing ↦
      let (one, none_seen) = distinct-count seen items a (ground (arith, h, missing)) in
      rw (missing) (one, none_seen)
  | inr (u, there) ↦
      let later : are_distinct (u ∷ seen) items ≡ true = ground (arith, h, there) in
      let fresh : includes seen u ≡ false = ground (arith, h, there) in
      let (one, none_seen) = distinct-count (u ∷ seen) items a later in
      rw (there) (elim (Bool-cases (u == a)) [
        | inl is_it ↦
            let rest = none_seen (ground (arith, is_it)) in
            let not_seen : includes seen a ≡ false =
              subst (λ k. includes seen k ≡ false) ((==_iff u a).0 is_it) fresh in
            rw (is_it) (omega (arith, rest), λ seen_it. absurd (cc (seen_it, not_seen)))
        | inr other ↦ rw (other) (one, λ seen_it. none_seen (ground (arith, seen_it)))
      ])
]

every-includes :
    (t : ℕ → Bool) (ids : List ℕ) (q : ℕ) → every t ids ≡ true → includes ids q ≡ true → t q ≡ true
every-includes t [] q h m = cc
every-includes t (x ∷ ids) q h m = elim (Bool-cases (x == q)) [
  | inl is_it ↦ ap t (sym ((==_iff x q).0 is_it)) ∙ ground (arith, h)
  | inr other ↦ every-includes t ids q (ground (arith, h)) (ground (arith, m, other))
]

module _ (catalog : Catalog) (rentals : Rentals) (p : EvaluateParams)
    (minutes blocked_end : ℕ) where
  pub listed-IsOffered :
      all_products_listed catalog rentals p minutes blocked_end ≡ true
      → (i : NormalizedItem) → Memᴰ i p.items
      → IsOffered catalog.products i.product_id
  listed-IsOffered h i m =
      let rows = products catalog rentals p minutes blocked_end in
      let ids = map (λ (i : NormalizedItem). i.product_id) p.items in
      let asked =
        includes-unique ids i.product_id
        ∙ includes-Memᴰ ids (map-Memᴰ (λ (i : NormalizedItem). i.product_id) p.items m) in
      let there = every-includes (has_product rows) (product_ids_of p.items) i.product_id h asked in
      elim (Option-cases (map_get (λ (q : Product). q.id) rows i.product_id)) [
        | inl missing ↦ absurd (ground (arith, there, missing))
        | inr (q, found) ↦
            let (mq, is_q) = map_get-Memᴰ (λ (q : Product). q.id) rows i.product_id found in
            subst (IsOffered catalog.products) is_q
              (active-IsOffered (product_ids_of p.items) catalog.products mq)
      ]

  pub fits-IsNameable :
      all_units_fit catalog rentals p minutes blocked_end ≡ true
      → (i : NormalizedItem) (a : ℕ) → Memᴰ i p.items
      → i.asset_unit_id ≡ some a
      → IsNameable catalog.asset_units i.product_id a
  unfolding asset_unit_fits
  fits-IsNameable h i a m named =
      let rows = asset_units catalog rentals p minutes blocked_end in
      let fit = every-Memᴰ (asset_unit_fits rows) p.items h m in
      let fit' : unit_is_of i.product_id (map_get (λ (u : AssetUnit). u.id) rows a) ≡ true =
        rw (named) at fit in
      elim (Option-cases (map_get (λ (u : AssetUnit). u.id) rows a)) [
        | inl missing ↦ absurd (ground (arith, fit', missing))
        | inr (u, found) ↦
            let (mu, is_u) = map_get-Memᴰ (λ (u : AssetUnit). u.id) rows a found in
            let (there, assignable) =
              assignable-Memᴰ (asset_unit_ids_of p.items) catalog.asset_units mu in
            let of_it : (u.product_id == i.product_id) ≡ true = ground (arith, fit', found) in
            record {
              unit = u;
              mem = there;
              is_it = is_u;
              of_product = (==_iff u.product_id i.product_id).0 of_it;
              assignable = assignable;
            }
      ]
