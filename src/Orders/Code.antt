-- ===== src/Orders/Code.antt =====
-- `generateOrderCode` of src/modules/rental-orders/rental-orders.service.ts. The database compares
-- codes as texts; of codes made of one prefix and digits every collation gives the order of the
-- code points.
use Prim.Native.String
use rental_be_nest.Prelude.{
  ℕ, zero, suc, ◌+◌, ◌-◌, ◌/◌, ◌%◌, Bool, true, false, ◌&&◌, ◌||◌, Option, none, some, List, [],
  ◌∷◌, String, codes, drop, ltb, length, ◌==◌, if◌then◌else◌, ◌or_else◌, ◌≡◌, refl,
}
use rental_be_nest.Store.Hours.Clock.{to_number}
use rental_be_nest.Orders.Tables.{RentalOrder}

-- `code: { startsWith: 'ORD-' }`
abbrev pub has_prefix : List ℕ → List ℕ → Bool
has_prefix [] text = true
has_prefix (p ∷ ps) [] = false
has_prefix (p ∷ ps) (c ∷ cs) = p == c && has_prefix ps cs

-- `a < b` of texts, by code points
abbrev pub lt_text : List ℕ → List ℕ → Bool
lt_text a [] = false
lt_text [] (c ∷ cs) = true
lt_text (d ∷ ds) (c ∷ cs) = ltb d c || (d == c && lt_text ds cs)

-- The greatest code so far, as code points.
abbrev pub later_code : Option (List ℕ) → List ℕ → Option (List ℕ)
later_code none code = some code
later_code (some best) code = if lt_text best code then some code else some best

latest_from : Option (List ℕ) → List RentalOrder → Option (List ℕ)
latest_from best [] = best
latest_from best (o ∷ orders) =
    let code = codes o.code in
    latest_from (if has_prefix (codes "ORD-") code then later_code best code else best) orders

unfoldable pub latest_code : List RentalOrder → Option (List ℕ)
unfolding latest_from
latest_code orders = latest_from none orders

-- `Number(latestOrder.code.replace('ORD-', '')) || 0`
unfoldable pub latest_number : Option (List ℕ) → ℕ
unfolding to_number
latest_number none = 0
latest_number (some code) = to_number 0 (drop 4 code) or_else 0

abbrev digit_text : ℕ → String
digit_text zero = "0"
digit_text (suc zero) = "1"
digit_text (suc (suc zero)) = "2"
digit_text (suc (suc (suc zero))) = "3"
digit_text (suc (suc (suc (suc zero)))) = "4"
digit_text (suc (suc (suc (suc (suc zero))))) = "5"
digit_text (suc (suc (suc (suc (suc (suc zero)))))) = "6"
digit_text (suc (suc (suc (suc (suc (suc (suc zero))))))) = "7"
digit_text (suc (suc (suc (suc (suc (suc (suc (suc zero)))))))) = "8"
digit_text _ = "9"

-- `String(n)` behind a rest, on fuel: a number has at most as many digits as its value and one.
unfoldable pub decimal : ℕ → ℕ → String → String
decimal zero n rest = rest
decimal (suc fuel) n rest =
    let text = String.◌++◌ (digit_text (n % 10)) rest in
    let more = decimal fuel (n / 10) text in if ltb n 10 then text else more

abbrev zeros : ℕ → String → String
zeros zero text = text
zeros (suc n) text = String.◌++◌ "0" (zeros n text)

-- `padStart(6, '0')`
unfoldable pub pad_start : String → String
pad_start text = zeros (6 - length (codes text)) text

unfoldable pub print_code : ℕ → String
unfolding decimal pad_start
print_code n = String.◌++◌ "ORD-" (pad_start (decimal (n + 1) n ""))

unfoldable pub generate_order_code : List RentalOrder → String
unfolding latest_code latest_number print_code
generate_order_code orders = print_code (latest_number (latest_code orders) + 1)

first_code : generate_order_code [] ≡ "ORD-000001"
unfolding generate_order_code
first_code = refl

print_code_wide : print_code 1234567 ≡ "ORD-1234567"
unfolding print_code
print_code_wide = refl
