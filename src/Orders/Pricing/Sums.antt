-- ===== src/Orders/Pricing/Sums.antt =====
-- The totals of an order.
use rental_be_nest.Prelude.{
  ℕ, ◌+◌, ◌*◌, ◌≤◌, ◌≡◌, refl, ap, Option, none, some, List, [], ◌∷◌, length, map_get, arith,
  max_sub_zero,
}
use rental_be_nest.Result.{ok, bind-ok}
use rental_be_nest.Catalog.{Product}
use rental_be_nest.Store.Policy.{RentalPolicy}
use rental_be_nest.Orders.Tables.{NormalizedItem, PricedItem, Totals}
use rental_be_nest.Orders.Pricing.{
  price_item, price_found, price_items, reduce_sum, calculate_totals,
}

abbrev pub sum_of : (PricedItem → ℕ) → List PricedItem → ℕ
sum_of f [] = 0
sum_of f (p ∷ ps) = f p + sum_of f ps

reduce_sum-eq :
    (f : PricedItem → ℕ) (n : ℕ) (ps : List PricedItem) → reduce_sum f n ps ≡ n + sum_of f ps
reduce_sum-eq f n [] = omega arith
reduce_sum-eq f n (p ∷ ps) = omega (arith, reduce_sum-eq f (n + f p) ps)

-- What pricing gives: the items in order, each held for the policy's amount and due up front for its
-- line and its deposit.
abbrev pub Follows : RentalPolicy → List NormalizedItem → List PricedItem → Type 0
Follows policy [] [] = Unit
Follows policy [] (p ∷ ps) = ⊥
Follows policy (i ∷ is) [] = ⊥
Follows policy (i ∷ is) (p ∷ ps) =
    (p.item ≡ i)
    × (p.booking_hold_amount ≡ policy.booking_hold_amount_per_unit)
    × (p.upfront_amount ≡ p.line_total + p.deposit_amount)
    × (p.line_total ≡ p.unit_price)
    × Follows policy is ps

price_found-Follows :
    (policy : RentalPolicy) (s e : ℕ) (i : NormalizedItem) (o : Option Product) {p : PricedItem}
    → price_found policy s e i o ≡ ok p
    → (p.item ≡ i)
      × (p.booking_hold_amount ≡ policy.booking_hold_amount_per_unit)
      × (p.upfront_amount ≡ p.line_total + p.deposit_amount)
      × (p.line_total ≡ p.unit_price)
unfolding price_item
price_found-Follows policy s e i none h = cc
price_found-Follows policy s e i (some product) h = ground arith

pub price_items-Follows :
    (items : List NormalizedItem) (products : List Product) (policy : RentalPolicy) (s e : ℕ)
    {ps : List PricedItem}
    → price_items items products policy s e ≡ ok ps
    → Follows policy items ps
unfolding price_items
price_items-Follows [] products policy s e {ps} h = rw (← nil h) tt
  where
    nil : {ps : List PricedItem} → ok [] ≡ ok ps → [] ≡ ps
    nil e = cc
price_items-Follows (i ∷ is) products policy s e {ps} h =
    let product = map_get (λ (p : Product). p.id) products i.product_id in
    let (p, priced, h1) = bind-ok (price_found policy s e i product) _ h in
    let (rest, later, h2) = bind-ok (price_items is products policy s e) _ h1 in
    let same : p ∷ rest ≡ ps = ground arith in
    let (item, hold, upfront, line) = price_found-Follows policy s e i product priced in
    rw (← same) (item, hold, upfront, line, price_items-Follows is products policy s e later)

sums_of_Follows :
    (policy : RentalPolicy) (items : List NormalizedItem) (ps : List PricedItem)
    → Follows policy items ps
    → (sum_of (λ p. p.upfront_amount) ps
        ≡ sum_of (λ p. p.line_total) ps + sum_of (λ p. p.deposit_amount) ps)
      × (sum_of (λ p. p.booking_hold_amount) ps
          ≡ policy.booking_hold_amount_per_unit * length items)
sums_of_Follows policy [] [] f = (refl, omega arith)
sums_of_Follows policy [] (p ∷ ps) f = absurd f
sums_of_Follows policy (i ∷ is) [] f = absurd f
sums_of_Follows policy (i ∷ is) (p ∷ ps) (_, hold, upfront, _, f) =
    let (a, b) = sums_of_Follows policy is ps f in (omega arith, grind arith)

line_totals :
    (policy : RentalPolicy) (items : List NormalizedItem) (ps : List PricedItem)
    → Follows policy items ps
    → sum_of (λ p. p.line_total) ps ≡ sum_of (λ p. p.unit_price) ps
line_totals policy [] [] f = refl
line_totals policy [] (p ∷ ps) f = absurd f
line_totals policy (i ∷ is) [] f = absurd f
line_totals policy (i ∷ is) (p ∷ ps) (_, _, _, line, f) = omega (arith, line_totals policy is ps f)

max_sub_zero_cases : (a b : ℕ) → (b ≤ a → b + max_sub_zero a b ≡ a) × (a ≤ b → max_sub_zero a b ≡ 0)
max_sub_zero_cases a b = (λ h. ground arith, λ h. ground arith)

-- The totals of priced items: what is due up front is the items' up-front amounts and the delivery
-- fee less the discount, never below zero; the booking hold is the policy's amount for each item;
-- the hold and what is due at handover together are the larger of the hold and the up-front total.
pub calculate_totals-price_items :
    (items : List NormalizedItem) (products : List Product) (policy : RentalPolicy)
    (s e fee discount : ℕ) {ps : List PricedItem}
    → price_items items products policy s e ≡ ok ps
    → let t : Totals = calculate_totals ps fee discount in
      (t.upfront_total ≡ max_sub_zero (sum_of (λ p. p.upfront_amount) ps + fee) discount)
      × (t.subtotal ≡ sum_of (λ p. p.unit_price) ps)
      × (t.booking_hold_total ≡ policy.booking_hold_amount_per_unit * length items)
      × (t.booking_hold_total ≤ t.upfront_total
          → t.booking_hold_total + t.handover_due_total ≡ t.upfront_total)
      × (t.upfront_total ≤ t.booking_hold_total → t.handover_due_total ≡ 0)
unfolding calculate_totals
calculate_totals-price_items items products policy s e fee discount {ps} h =
    let follows = price_items-Follows items products policy s e h in
    let (upfront, hold) = sums_of_Follows policy items ps follows in
    let line = reduce_sum-eq (λ p. p.line_total) 0 ps in
    let deposit = reduce_sum-eq (λ p. p.deposit_amount) 0 ps in
    let held = reduce_sum-eq (λ p. p.booking_hold_amount) 0 ps in
    let due = max_sub_zero_cases _ (reduce_sum (λ p. p.booking_hold_amount) 0 ps) in
    (
      ap (λ n. max_sub_zero (n + fee) discount) (omega arith),
      omega (arith, line_totals policy items ps follows),
      omega arith,
      due.0,
      due.1,
    )
