-- ===== src/Catalog/Tiers/Rate.antt =====
-- The price of a day by the tiers, said of the list of the tiers.
use rental_be_nest.Prelude.{
  ℕ, ◌≤◌, ◌≡◌, refl, sym, ap, ◌∙◌, ◌↔◌, subst, true, false, Option, none, some, List, [], ◌∷◌, ◌++◌,
  Memᴰ, arith, inl, inr, Bool-cases,
}
use rental_be_nest.Catalog.Tables.{PriceTier}
use rental_be_nest.Catalog.Tiers.{covers, up_to, get_tier_daily_price}

-- A number of days lies in the range of a tier, which has no end where no last day is stored.
abbrev pub Ends : Option ℕ → ℕ → Type 0
Ends none n = Unit
Ends (some last) n = n ≤ last

abbrev pub Holds : ℕ → PriceTier → Type 0
Holds n tier = (tier.min_days ≤ n) × Ends tier.max_days n

-- The price of each day of a number of days: that of the first tier in whose range the number lies,
-- or the default price.
pub data DayRate (tiers : List PriceTier) (default n : ℕ) : ℕ → Type 0 where
  by_tier :
      (before after : List PriceTier) (tier : PriceTier)
      → tiers ≡ before ++ tier ∷ after
      → ((t : PriceTier) → Memᴰ t before → ¬ (Holds n t))
      → Holds n tier
      → DayRate tiers default n tier.daily_price
  by_default : ((t : PriceTier) → Memᴰ t tiers → ¬ (Holds n t)) → DayRate tiers default n default

covers_iff : (n : ℕ) (t : PriceTier) → (covers n t ≡ true) ↔ Holds n t
covers_iff n t = (
  λ h. (ground (arith, h), ends t.max_days (ground (arith, h))),
  λ (low, high). let e = up_to-true t.max_days high in ground (arith, low, e),
)
  where
    ends : (m : Option ℕ) → up_to m n ≡ true → Ends m n
    ends none h = tt
    ends (some last) h = ground (arith, h)

    up_to-true : (m : Option ℕ) → Ends m n → up_to m n ≡ true
    up_to-true none h = refl
    up_to-true (some last) h = ground (arith, h)

not_covers : (n : ℕ) (t : PriceTier) → ¬ (Holds n t) → covers n t ≡ false
not_covers n t not_held = elim (Bool-cases (covers n t)) [
  | inl c ↦ absurd (not_held ((covers_iff n t).0 c))
  | inr f ↦ f
]

-- Tiers that do not hold the number are passed over.
passed_over :
    (before rest : List PriceTier) (default n : ℕ)
    → ((t : PriceTier) → Memᴰ t before → ¬ (Holds n t))
    → get_tier_daily_price (before ++ rest) default n ≡ get_tier_daily_price rest default n
unfolding get_tier_daily_price
passed_over [] rest default n h = refl
passed_over (t ∷ before) rest default n h =
    let out = not_covers n t (h t (Memᴰ.head refl)) in
    rw (out) (passed_over before rest default n (λ s m. h s (Memᴰ.tail m)))

first-Holds :
    (tier : PriceTier) (after : List PriceTier) (default n : ℕ)
    → Holds n tier
    → get_tier_daily_price (tier ∷ after) default n ≡ tier.daily_price
unfolding get_tier_daily_price
first-Holds tier after default n h = let c = (covers_iff n tier).1 h in rw (c) refl

none-Holds :
    (tiers : List PriceTier) (default n : ℕ)
    → ((t : PriceTier) → Memᴰ t tiers → ¬ (Holds n t))
    → get_tier_daily_price tiers default n ≡ default
unfolding get_tier_daily_price
none-Holds [] default n h = refl
none-Holds (t ∷ tiers) default n h =
    let out = not_covers n t (h t (Memᴰ.head refl)) in
    rw (out) (none-Holds tiers default n (λ s m. h s (Memᴰ.tail m)))

pub DayRate-sound :
    (tiers : List PriceTier) (default n : ℕ) {p : ℕ}
    → DayRate tiers default n p
    → get_tier_daily_price tiers default n ≡ p
DayRate-sound tiers default n (by_tier before after tier split passed held) =
    ap (λ ts. get_tier_daily_price ts default n) split
    ∙ passed_over before (tier ∷ after) default n passed
    ∙ first-Holds tier after default n held
DayRate-sound tiers default n (by_default passed) = none-Holds tiers default n passed

-- A tier that does not hold the number, before the others.
later :
    (t : PriceTier) (tiers : List PriceTier) (default n : ℕ) {p : ℕ}
    → ¬ (Holds n t)
    → DayRate tiers default n p
    → DayRate (t ∷ tiers) default n p
later t tiers default n out (by_tier before after tier split passed held) =
    by_tier (t ∷ before) after tier (ap (λ ts. t ∷ ts) split)
      (λ s m. elim m [
        | Memᴰ.head e ↦ subst (λ t. ¬ (Holds n t)) (sym e) out
        | Memᴰ.tail k ↦ passed s k
      ])
      held
later t tiers default n out (by_default passed) = by_default (λ s m. elim m [
  | Memᴰ.head e ↦ subst (λ t. ¬ (Holds n t)) (sym e) out
  | Memᴰ.tail k ↦ passed s k
])

pub day_rated : (tiers : List PriceTier) (default n : ℕ) → (p : ℕ) × DayRate tiers default n p
day_rated [] default n = (default, by_default (λ t m. elim m [ ]))
day_rated (t ∷ tiers) default n = elim (Bool-cases (covers n t)) [
  | inl c ↦ (t.daily_price, by_tier [] tiers t refl (λ s m. elim m [ ]) ((covers_iff n t).0 c))
  | inr f ↦
      let (p, rate) = day_rated tiers default n in
      (p, later t tiers default n (λ h. let c = (covers_iff n t).1 h in cc) rate)
]
