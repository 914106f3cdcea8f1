-- ===== src/Orders/Availability/Report.antt =====
-- What an empty list of unavailable items says.
use rental_be_nest.Prelude.{
  ℕ, ◌+◌, ◌≤◌, ◌<◌, ◌≡◌, refl, sym, ap, ◌∙◌, ◌↔◌, inl, inr, false, some, List, [], ◌∷◌, ◌++◌, Memᴰ,
  includes, arith, Bool-cases, Option-cases,
}
use rental_be_nest.Result.{UnavailableItem}
use rental_be_nest.Catalog.{Catalog}
use rental_be_nest.Orders.Tables.{NormalizedItem, Rentals}
use rental_be_nest.Orders.Availability.{
  EvaluateParams, booked_items, short_products, requested_quantity, unavailable_items_of,
  booked_ids, assignable_count, booked_quantity, product_ids_of,
}

-- No item of the request names a unit among the booked ones.
abbrev pub NoneBooked : List ℕ → List NormalizedItem → Type 0
NoneBooked booked [] = Unit
NoneBooked booked (item ∷ items) =
    ((a : ℕ) → item.asset_unit_id ≡ some a → includes booked a ≡ false) × NoneBooked booked items

-- Each product has units enough for what is booked and what is asked for.
abbrev pub AllFit : (assignable booked requested : ℕ → ℕ) → List ℕ → Type 0
AllFit assignable booked requested [] = Unit
AllFit assignable booked requested (p ∷ ps) =
    (0 < assignable p)
    × (booked p + requested p ≤ assignable p)
    × AllFit assignable booked requested ps

pub NoneBooked-Memᴰ :
    (booked : List ℕ) (items : List NormalizedItem) {item : NormalizedItem} {a : ℕ}
    → NoneBooked booked items
    → Memᴰ item items
    → item.asset_unit_id ≡ some a
    → includes booked a ≡ false
NoneBooked-Memᴰ booked [] h m e = elim m [ ]
NoneBooked-Memᴰ booked (i ∷ items) {item} {a} (here, h) (Memᴰ.head same) e =
    here a (ap (λ (i : NormalizedItem). i.asset_unit_id) (sym same) ∙ e)
NoneBooked-Memᴰ booked (i ∷ items) (here, h) (Memᴰ.tail m) e = NoneBooked-Memᴰ booked items h m e

append-nil-left : (xs ys : List UnavailableItem) → xs ++ ys ≡ [] → (xs ≡ []) × (ys ≡ [])
append-nil-left [] ys h = (refl, h)
append-nil-left (x ∷ xs) ys h = cc

booked_items-nil :
    (booked : List ℕ) (items : List NormalizedItem)
    → (booked_items booked items ≡ []) ↔ NoneBooked booked items
unfolding booked_items
booked_items-nil booked [] = (λ h. tt, λ h. refl)
booked_items-nil booked (item ∷ items) = elim (Option-cases item.asset_unit_id) [
  | inl missing ↦ (
    λ h. (λ a e. cc (missing, e), (booked_items-nil booked items).0 (ground arith)),
    λ (f, h). ground (arith, (booked_items-nil booked items).1 h),
  )
  | inr (a, there) ↦ elim (Bool-cases (includes booked a)) [
    | inl taken ↦ (λ h. absurd (ground arith), λ (f, h). absurd (ground (arith, f a there)))
    | inr free ↦ (
      λ h. (λ b e. ground arith, (booked_items-nil booked items).0 (ground arith)),
      λ (f, h). ground (arith, (booked_items-nil booked items).1 h),
    )
  ]
]

short_products-nil :
    (assignable booked requested : ℕ → ℕ) (ps : List ℕ)
    → (short_products assignable booked requested ps ≡ []) ↔ AllFit assignable booked requested ps
unfolding short_products
short_products-nil assignable booked requested [] = (λ h. tt, λ h. refl)
short_products-nil assignable booked requested (p ∷ ps) = (
  λ h. (
    ground arith,
    ground arith,
    (short_products-nil assignable booked requested ps).0 (ground arith),
  ),
  λ (some_unit, enough, h). ground (arith, (short_products-nil assignable booked requested ps).1 h),
)

-- What the two loops over the request compute.
module _ (catalog : Catalog) (rentals : Rentals) (p : EvaluateParams)
    (minutes blocked_end : ℕ) where
  abbrev pub Passes : Type 0
  Passes =
      NoneBooked (booked_ids catalog rentals p minutes blocked_end) p.items
      × AllFit (assignable_count catalog rentals p minutes blocked_end)
          (booked_quantity catalog rentals p minutes blocked_end) (requested_quantity p.items)
          (product_ids_of p.items)

  pub unavailable_items-Passes :
      (unavailable_items_of catalog rentals p minutes blocked_end ≡ []) ↔ Passes
  unfolding unavailable_items_of
  unavailable_items-Passes = (
    λ h.
        let (x, y) = append-nil-left _ _ h in
        ((booked_items-nil _ _).0 x, (short_products-nil _ _ _ _).0 y),
    λ (x, y). rw ((booked_items-nil _ _).1 x) ((short_products-nil _ _ _ _).1 y),
  )
