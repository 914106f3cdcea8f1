-- ===== src/Catalog/Tiers/Lookup.antt =====
-- The price of a day where stored tiers share no day.
use rental_be_nest.Prelude.{ℕ, ◌≤◌, ◌≡◌, true, List, [], ◌∷◌, Memᴰ, count, arith}
use rental_be_nest.Catalog.Tables.{PriceTier}
use rental_be_nest.Catalog.Tiers.{covers, get_tier_daily_price}

count-Memᴰ :
    (n : ℕ) (tiers : List PriceTier) {tier : PriceTier}
    → Memᴰ tier tiers
    → covers n tier ≡ true
    → 1 ≤ count (covers n) tiers
count-Memᴰ n [] m c = elim m [ ]
count-Memᴰ n (t ∷ ts) (Memᴰ.head e) c = ground arith
count-Memᴰ n (t ∷ ts) (Memᴰ.tail m) c = ground (arith, count-Memᴰ n ts m c)

-- Where at most one stored tier covers a day count, the price is the price of any listed tier that
-- covers it, whatever the order in which the database lists the tiers.
pub get_tier_daily_price_unique :
    (tiers : List PriceTier) (default n : ℕ) {tier : PriceTier}
    → count (covers n) tiers ≤ 1
    → Memᴰ tier tiers
    → covers n tier ≡ true
    → get_tier_daily_price tiers default n ≡ tier.daily_price
unfolding get_tier_daily_price
get_tier_daily_price_unique [] default n one m c = elim m [ ]
get_tier_daily_price_unique (t ∷ ts) default n one (Memᴰ.head e) c = ground arith
get_tier_daily_price_unique (t ∷ ts) default n one (Memᴰ.tail m) c =
    ground (arith, count-Memᴰ n ts m c, get_tier_daily_price_unique ts default n _ m c)
