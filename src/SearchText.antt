-- ===== src/SearchText.antt =====
-- src/libs/utils/search-text.util.ts. The normalisation of a text (Unicode decomposition, lower case,
-- spaces) rests on Unicode tables and is a parameter.
use Prim.Native.String
use rental_be_nest.Prelude.{String, Option, none, some, List, [], ◌∷◌}

-- `.filter(Boolean)`: a missing text and the empty text are dropped.
abbrev pub present : List (Option String) → List String
present [] = []
present (none ∷ parts) = present parts
present (some text ∷ parts) = elim text [
  | String.[] ↦ present parts
  | String.◌∷◌ c s ↦ String.◌∷◌ c s ∷ present parts
]

-- `.join(' ')`
abbrev pub join_spaces : List String → String
join_spaces [] = ""
join_spaces (text ∷ []) = text
join_spaces (text ∷ next ∷ rest) = String.◌++◌ text (String.◌++◌ " " (join_spaces (next ∷ rest)))

module _ (normalize_search_text : String → String) where
  unfoldable pub build_user_search_text : (email full_name phone : Option String) → String
  build_user_search_text email full_name phone =
      normalize_search_text (join_spaces (present (email ∷ full_name ∷ phone ∷ [])))

  unfoldable pub build_product_search_text :
      (name sku brand_name category_name description : Option String) → String
  build_product_search_text name sku brand_name category_name description =
      normalize_search_text
        (join_spaces (present (name ∷ sku ∷ brand_name ∷ category_name ∷ description ∷ [])))

  unfoldable pub build_asset_unit_search_text :
      (serial_number note status condition product_name product_sku : Option String) → String
  build_asset_unit_search_text serial_number note status condition product_name product_sku =
      normalize_search_text (
        join_spaces
          (present (serial_number ∷ note ∷ status ∷ condition ∷ product_name ∷ product_sku ∷ [])))

  unfoldable pub build_customer_search_text :
      (code name phone email identity_number social_contact : Option String) → String
  build_customer_search_text code name phone email identity_number social_contact =
      normalize_search_text (
        join_spaces (present (code ∷ name ∷ phone ∷ email ∷ identity_number ∷ social_contact ∷ [])))

  unfoldable pub build_rental_order_search_text :
      (code name : String)
      (phone email identity_number delivery_address note internal_note cancel_reason : Option
        String)
      → String
  build_rental_order_search_text code name phone email identity_number delivery_address note
        internal_note cancel_reason =
      normalize_search_text (
        join_spaces (
          present (
            some code
            ∷ some name
            ∷ phone
            ∷ email
            ∷ identity_number
            ∷ delivery_address
            ∷ note
            ∷ internal_note
            ∷ cancel_reason
            ∷ [])))
