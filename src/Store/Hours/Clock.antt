-- ===== src/Store/Hours/Clock.antt =====
-- A time of day as text: `toMinutes`, and the comparison of numbers that may be NaN.
use rental_be_nest.Prelude.{
  ℕ, ◌+◌, ◌-◌, ◌*◌, ◌≡◌, refl, Bool, false, ◌&&◌, Option, none, some, List, [], ◌∷◌, ◌++◌, String,
  codes, leb, ltb, ◌==◌, if◌then◌else◌,
}

abbrev is_digit : ℕ → Bool
is_digit c = leb b'0' c && leb c b'9'

-- `Number(text)`, for a text of decimal digits and for the empty text; any other text counts as NaN,
-- though JavaScript reads signs, fractions, exponents and hexadecimal too.
unfoldable pub to_number : ℕ → List ℕ → Option ℕ
to_number acc [] = some acc
to_number acc (c ∷ cs) =
    let rest = to_number (acc * 10 + (c - b'0')) cs in if is_digit c then rest else none

-- `text.split(':')`, from the part that is being read
unfoldable pub split_colon : List ℕ → List ℕ → List (List ℕ)
split_colon part [] = part ∷ []
split_colon part (c ∷ cs) =
    let closed = split_colon [] cs in
    let longer = split_colon (part ++ c ∷ []) cs in if c == b':' then part ∷ closed else longer

-- `hour * 60 + minute`, NaN if a part is missing or NaN
unfoldable pub minutes_of : List (List ℕ) → Option ℕ
unfolding to_number
minutes_of [] = none
minutes_of (hour ∷ []) = none
minutes_of (hour ∷ minute ∷ rest) = elim (to_number 0 hour) [
  | none ↦ none
  | some h ↦ elim (to_number 0 minute) [ none ↦ none | some m ↦ some (h * 60 + m) ]
]

unfoldable pub to_minutes : String → Option ℕ
unfolding split_colon minutes_of
to_minutes time = minutes_of (split_colon [] (codes time))

-- `a < b` and `a >= b` are false where a side is NaN.
abbrev pub lt_number : Option ℕ → Option ℕ → Bool
lt_number none b = false
lt_number (some a) none = false
lt_number (some a) (some b) = ltb a b

abbrev pub ge_number : Option ℕ → Option ℕ → Bool
ge_number none b = false
ge_number (some a) none = false
ge_number (some a) (some b) = leb b a

to_minutes_half_past_eight : to_minutes "08:30" ≡ some 510
unfolding to_minutes
to_minutes_half_past_eight = refl

to_minutes_garbage : to_minutes "8h30" ≡ none
unfolding to_minutes
to_minutes_garbage = refl
