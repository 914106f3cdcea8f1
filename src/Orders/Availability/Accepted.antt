-- ===== src/Orders/Availability/Accepted.antt =====
-- What it takes for the availability check to call a request available.
use rental_be_nest.Prelude.{
  ℕ, ◌<◌, ◌≤◌, ◌≡◌, refl, sym, ap, ◌∙◌, subst, Bool, true, not, ◌&&◌, leb, some, List, [], ◌∷◌,
  Memᴰ, count, includes, length, arith, ==_iff,
}
use rental_be_nest.Result.{ok, require-ok, require-then, ok-injective}
use rental_be_nest.Exec.{Exec, pure, reads, lift, ◌>>=◌, lift-ok, reads-ok}
use rental_be_nest.Exec
use rental_be_nest.World.{World}
use rental_be_nest.World.Frames.{SameTables-trans}
use rental_be_nest.Catalog.{Catalog, Product, AssetUnit, is_null, is_assignable}
use rental_be_nest.Catalog.Queries.Found.{IsOffered, length-active, length-assignable}
use rental_be_nest.Store.Hours.{WallClock, BusinessHour}
use rental_be_nest.Store.Hours.Check.{IsOpenAt}
use rental_be_nest.Store.Closures.{StoreClosure, assert_no_closure_overlap}
use rental_be_nest.Store.Closures.Overlap.{AllApart, assert_no_closure_overlap_iff}
use rental_be_nest.Orders.Tables.{NormalizedItem, Rentals}
use rental_be_nest.Orders.Availability.{
  EvaluateParams, Availability, evaluate_availability, effective_turnaround, assert_open,
  availability_report, add_minutes, validate_rental_time, validate_requested_items, first_given,
  policy_minutes, report_of, unavailable_items_of, is_empty, all_products_found, all_units_found,
  all_units_fit, all_products_listed, product_ids_of, asset_unit_ids_of,
}
use rental_be_nest.Orders.Availability.Checked.{
  names_unit, IsNameable, opening_hours, opening_hours-same, assert_open-ok, distinct-count,
  listed-IsOffered, fits-IsNameable,
}
use rental_be_nest.Orders.Availability.Served.{CanServe, unavailable_items-nil_iff}
use rental_be_nest.Orders.Availability.Frames.{effective_turnaround-Frames, assert_open-Frames}

module _ (catalog : Catalog) (rentals : Rentals) (p : EvaluateParams)
    (minutes blocked_end : ℕ) where
  -- The report of a check that returns.
  report-ok :
      {a : Availability}
      → availability_report catalog rentals p minutes blocked_end ≡ ok a
      → (all_products_found catalog rentals p minutes blocked_end ≡ true)
        × (all_units_found catalog rentals p minutes blocked_end ≡ true)
        × (all_units_fit catalog rentals p minutes blocked_end ≡ true)
        × (all_products_listed catalog rentals p minutes blocked_end ≡ true)
        × (report_of catalog rentals p minutes blocked_end
              (unavailable_items_of catalog rentals p minutes blocked_end)
            ≡ a)
  unfolding availability_report
  report-ok {a} h =
      let (found, h1) =
        require-then (all_products_found catalog rentals p minutes blocked_end) _ _ h in
      let (units, h2) =
        require-then (all_units_found catalog rentals p minutes blocked_end) _ _ h1 in
      let (fits, h3) = require-then (all_units_fit catalog rentals p minutes blocked_end) _ _ h2 in
      let (listed, h4) =
        require-then (all_products_listed catalog rentals p minutes blocked_end) _ _ h3 in
      (found, units, fits, listed, ok-injective h4)

is_empty-nil : {A : Type 0} (xs : List A) → is_empty xs ≡ true → xs ≡ []
is_empty-nil [] h = refl
is_empty-nil (x ∷ xs) h = cc

rental_time-ok : (s e : ℕ) {u : Unit {0}} → validate_rental_time s e ≡ ok u → s < e
unfolding validate_rental_time
rental_time-ok s e h = ground (arith, require-ok (not (leb e s)) _ h)

serves_of_report :
    (catalog : Catalog) (rentals : Rentals) (p : EvaluateParams) (minutes blocked_end : ℕ)
    {a : Availability}
    → report_of catalog rentals p minutes blocked_end
        (unavailable_items_of catalog rentals p minutes blocked_end)
      ≡ a
    → a.is_available ≡ true
    → CanServe catalog rentals p a.blocked_end_date
serves_of_report catalog rentals p minutes blocked_end {a} e h =
    let items = unavailable_items_of catalog rentals p minutes blocked_end in
    let none_left = is_empty-nil items (ap (λ (a : Availability). a.is_available) e ∙ h) in
    subst (CanServe catalog rentals p) (ap (λ (a : Availability). a.blocked_end_date) e)
      ((unavailable_items-nil_iff catalog rentals p minutes blocked_end).0 none_left)

-- The active products and the assignable units that a request names.
abbrev pub is_named_product : EvaluateParams → Product → Bool
is_named_product p q = includes (product_ids_of p.items) q.id && q.is_active && is_null q.deleted_at

abbrev pub is_named_unit : EvaluateParams → AssetUnit → Bool
is_named_unit p u = includes (asset_unit_ids_of p.items) u.id && is_assignable u

-- A check that says yes: the dates are in order, no unit is named twice, each product of the request
-- is offered, each named unit is assignable and of its item's product, the store is open at both ends
-- and closed for no moment between, and the tables can serve the request.
pub record IsAccepted (clock : WallClock) (hours : List BusinessHour) (catalog : Catalog)
    (rentals : Rentals) (closures : List StoreClosure) (p : EvaluateParams) (a : Availability)
    : Type 0 where
  pub minutes : ℕ
  pub blocked : a.blocked_end_date ≡ add_minutes p.end_date minutes
  pub given :
      (n : ℕ)
      → first_given p.turnaround_minutes (policy_minutes p.rental_policy) ≡ some n
      → minutes ≡ n
  pub ordered : p.start_date < p.end_date
  pub distinct : (u : ℕ) → count (names_unit u) p.items ≤ 1
  pub offered : (i : NormalizedItem) → Memᴰ i p.items → IsOffered catalog.products i.product_id
  pub offered_once : count (is_named_product p) catalog.products ≡ length (product_ids_of p.items)
  pub nameable :
      (i : NormalizedItem) (u : ℕ)
      → Memᴰ i p.items
      → i.asset_unit_id ≡ some u
      → IsNameable catalog.asset_units i.product_id u
  pub nameable_once :
      count (is_named_unit p) catalog.asset_units ≡ length (asset_unit_ids_of p.items)
  pub open_at_start : IsOpenAt clock hours p.start_date
  pub open_at_end : IsOpenAt clock hours p.end_date
  pub apart : AllApart p.start_date p.end_date closures
  pub serves : CanServe catalog rentals p a.blocked_end_date

turnaround_given :
    (p : EvaluateParams) (w : World) {minutes : ℕ} (n : ℕ)
    → (effective_turnaround p w).0 ≡ ok minutes
    → first_given p.turnaround_minutes (policy_minutes p.rental_policy) ≡ some n
    → minutes ≡ n
unfolding effective_turnaround ◌>>=◌
turnaround_given p w {minutes} n h e =
    let h' : ok n ≡ ok minutes = rw (e, effective_turnaround) at h in sym (ok-injective h')

-- A check that returns and calls the request available has found the dates in order; no unit named
-- twice; each product of the request active and not deleted, with as many such products as the
-- request names; each named unit assignable and of its item's product, with as many such units as it
-- names; the store open at both ends by the hours that the service reads, and closed for no moment
-- between; and for the period with its turnaround, the tables able to serve the request: no named
-- unit is on an item that occupies the period, and of each product there are assignable units, at
-- least as many as such items and the requested ones together. The blocked period ends the given
-- turnaround after the end.
pub evaluate_availability-IsAccepted :
    (clock : WallClock) (p : EvaluateParams) (w : World) {a : Availability}
    → (evaluate_availability clock p w).0 ≡ ok a
    → a.is_available ≡ true
    → IsAccepted clock (opening_hours w) w.catalog w.rentals w.closures p a
unfolding evaluate_availability reads
evaluate_availability-IsAccepted clock p w {a} h yes_it_is =
    let (_, t1, h1, _) = lift-ok (validate_rental_time p.start_date p.end_date) _ w h in
    let (_, t2, h2, _) = lift-ok (validate_requested_items p.items) _ w h1 in
    let (minutes, t3, h3, _) = Exec.bind-ok (effective_turnaround p) _ w h2 in
    let w1 = (effective_turnaround p w).1 in
    let (_, t4, h4, _) = Exec.bind-ok (assert_open clock p.start_date p.end_date) _ w1 h3 in
    let w2 = (assert_open clock p.start_date p.end_date w1).1 in
    let (_, t5, h5, _) =
      reads-ok (λ w. assert_no_closure_overlap p.start_date p.end_date w.closures) _ w2 h4 in
    let same =
      SameTables-trans ((effective_turnaround-Frames p).at w)
        ((assert_open-Frames clock p.start_date p.end_date).at w1) in
    let reads_ok : availability_report w2.catalog w2.rentals p minutes
          (add_minutes p.end_date minutes)
        ≡ ok a =
      h5 in
    let (found, units, fits, listed, is_report) =
      report-ok w2.catalog w2.rentals p minutes (add_minutes p.end_date minutes) reads_ok in
    let blocked_end = add_minutes p.end_date minutes in
    let serves =
      serves_of_report w2.catalog w2.rentals p minutes (add_minutes p.end_date minutes) is_report
        yes_it_is in
    let (at_start, at_end) = assert_open-ok clock p.start_date p.end_date w1 t4 in
    let blocked : a.blocked_end_date ≡ add_minutes p.end_date minutes =
      ap (λ (a : Availability). a.blocked_end_date) (sym is_report) in
    record {
      minutes = minutes;
      blocked = blocked;
      given = λ n e. turnaround_given p w n t3 e;
      ordered = rental_time-ok p.start_date p.end_date t1;
      distinct = λ u. (distinct-count [] p.items u (require-ok _ _ t2)).0;
      offered = λ i m.
          subst (λ c. IsOffered c.products i.product_id) same.catalog
            (listed-IsOffered w2.catalog w2.rentals p minutes blocked_end listed i m);
      offered_once =
          subst (λ c. count (is_named_product p) c.products ≡ length (product_ids_of p.items))
            same.catalog
            (sym (length-active (product_ids_of p.items) w2.catalog.products)
              ∙ (==_iff _ _).0 found);
      nameable = λ i u m named.
          subst (λ c. IsNameable c.asset_units i.product_id u) same.catalog
            (fits-IsNameable w2.catalog w2.rentals p minutes blocked_end fits i u m named);
      nameable_once =
          subst (λ c. count (is_named_unit p) c.asset_units ≡ length (asset_unit_ids_of p.items))
            same.catalog
            (sym (length-assignable (asset_unit_ids_of p.items) w2.catalog.asset_units)
              ∙ (==_iff _ _).0 units);
      open_at_start =
          subst (λ rows. IsOpenAt clock rows p.start_date) (opening_hours-same p w) at_start;
      open_at_end = subst (λ rows. IsOpenAt clock rows p.end_date) (opening_hours-same p w) at_end;
      apart =
          subst (AllApart p.start_date p.end_date) same.closures
            ((assert_no_closure_overlap_iff p.start_date p.end_date w2.closures).0 t5);
      serves =
          subst (λ c. CanServe c w.rentals p a.blocked_end_date) same.catalog
            (subst (λ r. CanServe w2.catalog r p a.blocked_end_date) same.rentals serves);
    }
