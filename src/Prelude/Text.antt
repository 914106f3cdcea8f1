-- ===== src/Prelude/Text.antt =====
-- The code points of a text, and lists of texts.
use Prim.Native.Nat.{ℕ}
use Prim.Native.Char.{code}
use Prim.Native.String.{String}
use text.Mathlib.Text.{◌==◌, starts_with}
use text.Mathlib.TextEquality.{eq_iff}
use mathlib.Core.Path.{◌≡◌, refl}
use mathlib.Core.Bool.{Bool, false, ◌||◌}
use mathlib.Core.List.{List, [], ◌∷◌}
use native.Mathlib.Omega.{arith}
use rental_be_nest.Prelude.Tests.{if◌then◌else◌}

abbrev pub codes : String → List ℕ
codes String.[] = []
codes (String.◌∷◌ c s) = code c ∷ codes s

abbrev pub str_eq : String → String → Bool
str_eq s t = s == t

-- `set.has(text)`
abbrev pub has_text : List String → String → Bool
has_text [] text = false
has_text (s ∷ texts) text = str_eq s text || has_text texts text

-- `text.includes(part)`
abbrev pub has_part : String → String → Bool
has_part String.[] part = starts_with String.[] part
has_part (String.◌∷◌ c s) part = starts_with (String.◌∷◌ c s) part || has_part s part

-- `[...new Set(texts)]`
abbrev pub new_texts : List String → List String → List String
new_texts seen [] = []
new_texts seen (s ∷ texts) =
    let old = new_texts seen texts in
    let new = new_texts (s ∷ seen) texts in if has_text seen s then old else s ∷ new

abbrev pub unique_texts : List String → List String
unique_texts texts = new_texts [] texts

has_text-new_texts :
    (seen texts : List String) (t : String)
    → (has_text seen t || has_text (new_texts seen texts) t) ≡ (has_text seen t || has_text texts t)
has_text-new_texts seen [] t = refl
has_text-new_texts seen (s ∷ texts) t =
    ground
      (arith, has_text-new_texts seen texts t, has_text-new_texts (s ∷ seen) texts t, eq_iff s t)

pub has_text-unique_texts :
    (texts : List String) (t : String) → has_text (unique_texts texts) t ≡ has_text texts t
has_text-unique_texts texts t = has_text-new_texts [] texts t
