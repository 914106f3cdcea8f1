-- ===== src/Inventory/Calls/Answers.antt =====
-- What it means that the answer of a call is a row as it is after the call.
use rental_be_nest.Prelude.{ℕ, ◌≡◌, refl, subst, Bool, List}
use rental_be_nest.Result.{Result, ok, err, ok-injective}
use rental_be_nest.Exec.{Exec, pure, modify, ◌>>=◌, ◌>>◌}
use rental_be_nest.World.{World, ChangeReason}
use rental_be_nest.Catalog.{Product, AssetUnit}
use rental_be_nest.Inventory.Requests.{emit_changed}
use rental_be_nest.Inventory.Products.{find_existing_product}
use rental_be_nest.Inventory.Units.{find_existing_asset_unit}
use rental_be_nest.Inventory.Calls.{
  StockCall, add_product, change_product, switch_product, remove_products, add_unit, change_unit,
  change_unit_status, remove_units, Response, no_body, product_body, unit_body, answered, respond,
  product_included, unit_included, product_answer, unit_answer,
}
use rental_be_nest.Inventory.Requested.{
  IsCreatedProduct, IsUpdatedProduct, IsCreatedUnit, IsUpdatedUnit, HasNewStatus,
}

-- A product that `find_existing_product` finds after a call, and what is known of it.
abbrev pub FoundProduct : (Product → Type 0) → Product → World → Type 0
FoundProduct P p w = (find_existing_product p.id w ≡ ok p) × P p

abbrev pub FoundUnit : (AssetUnit → Type 0) → AssetUnit → World → Type 0
FoundUnit P u w = (find_existing_asset_unit u.id w ≡ ok u) × P u

-- What a request makes of the row that it found in the world `w`.
abbrev pub ChangedProduct : World → ℕ → (Product → Product → Type 0) → Product → Type 0
ChangedProduct w id P p = (old : Product) × (find_existing_product id w ≡ ok old) × P old p

abbrev pub ChangedUnit : World → ℕ → (AssetUnit → AssetUnit → Type 0) → AssetUnit → Type 0
ChangedUnit w id P u = (old : AssetUnit) × (find_existing_asset_unit id w ≡ ok old) × P old u

-- Nothing but the activity of a product differs.
abbrev pub HasActivity : Bool → Product → Product → Type 0
HasActivity is_active old p =
    (p.is_active ≡ is_active) × (record p { is_active = old.is_active } ≡ old)

-- The body of an answer is that of a row in the world `w'` after the call, found by its id and with the
-- columns that the request asked for.
abbrev pub AnswersProduct : (Product → Type 0) → World → Response → Type 0
AnswersProduct P w' no_body = ⊥
AnswersProduct P w' (product_body b) =
    (p : Product) × FoundProduct P p w' × (b ≡ product_included w' p)
AnswersProduct P w' (unit_body b) = ⊥

abbrev pub AnswersUnit : (AssetUnit → Type 0) → World → Response → Type 0
AnswersUnit P w' no_body = ⊥
AnswersUnit P w' (product_body b) = ⊥
AnswersUnit P w' (unit_body b) = (u : AssetUnit) × FoundUnit P u w' × (b ≡ unit_included w' u)

abbrev pub IsStored : StockCall → World → World → Response → Type 0
IsStored (add_product dto) w w' out = AnswersProduct (IsCreatedProduct dto) w' out
IsStored (change_product id dto) w w' out =
    AnswersProduct (ChangedProduct w id (IsUpdatedProduct dto)) w' out
IsStored (switch_product id is_active) w w' out =
    AnswersProduct (ChangedProduct w id (HasActivity is_active)) w' out
IsStored (remove_products ids) w w' out = out ≡ no_body
IsStored (add_unit dto) w w' out = AnswersUnit (IsCreatedUnit dto) w' out
IsStored (change_unit id dto) w w' out = AnswersUnit (ChangedUnit w id (IsUpdatedUnit dto)) w' out
IsStored (change_unit_status id dto) w w' out =
    AnswersUnit (ChangedUnit w id (HasNewStatus dto)) w' out
IsStored (remove_units ids) w w' out = out ≡ no_body

-- A broadcast leaves the rows.
emit-FoundProduct :
    (P : Product → Type 0) (p : Product) (reason : ChangeReason) (products units : List ℕ)
    (w : World)
    → FoundProduct P p w
    → FoundProduct P p (emit_changed reason products units w)
unfolding emit_changed find_existing_product
emit-FoundProduct P p reason products units w s = s

emit-FoundUnit :
    (P : AssetUnit → Type 0) (u : AssetUnit) (reason : ChangeReason) (products units : List ℕ)
    (w : World)
    → FoundUnit P u w
    → FoundUnit P u (emit_changed reason products units w)
unfolding emit_changed find_existing_asset_unit
emit-FoundUnit P u reason products units w s = s

-- The end of a call answers the row that it is given.
written_answer :
    {A : Type 0} (P : A → World → Type 0) (write : World → World) (reason : ChangeReason)
    (products units : List ℕ) (a : A) (w : World)
    → P a (emit_changed reason products units (write w))
    → (b : A)
    → ((modify write >> (modify (emit_changed reason products units) >> pure a)) w).0 ≡ ok b
    → P b ((modify write >> (modify (emit_changed reason products units) >> pure a)) w).1
unfolding ◌>>=◌
written_answer P write reason products units a w sent b h =
    subst (λ x. P x (emit_changed reason products units (write w))) (ok-injective h) sent

pub written_product :
    (P : Product → Type 0) (write : World → World) (reason : ChangeReason) (products units : List ℕ)
    (p : Product) (w : World)
    → FoundProduct P p (write w)
    → (b : Product)
    → ((modify write >> (modify (emit_changed reason products units) >> pure p)) w).0 ≡ ok b
    → FoundProduct P b
        ((modify write >> (modify (emit_changed reason products units) >> pure p)) w).1
written_product P write reason products units p w s =
    written_answer (FoundProduct P) write reason products units p w
      (emit-FoundProduct P p reason products units (write w) s)

pub written_unit :
    (P : AssetUnit → Type 0) (write : World → World) (reason : ChangeReason)
    (products units : List ℕ) (u : AssetUnit) (w : World)
    → FoundUnit P u (write w)
    → (b : AssetUnit)
    → ((modify write >> (modify (emit_changed reason products units) >> pure u)) w).0 ≡ ok b
    → FoundUnit P b ((modify write >> (modify (emit_changed reason products units) >> pure u)) w).1
written_unit P write reason products units u w s =
    written_answer (FoundUnit P) write reason products units u w
      (emit-FoundUnit P u reason products units (write w) s)

-- A call that returns rows of which a predicate holds answers them.
pub product_answered :
    (P : Product → Type 0) (m : Exec World Product) (w : World) (out : Response)
    → ((p : Product) → (m w).0 ≡ ok p → FoundProduct P p (m w).1)
    → (respond product_answer m w).0 ≡ ok out
    → AnswersProduct P (m w).1 out
product_answered P m w out k h = go (m w).0 k h
  where
    go :
        (r : Result Product)
        → ((p : Product) → r ≡ ok p → FoundProduct P p (m w).1)
        → answered (product_answer (m w).1) r ≡ ok out
        → AnswersProduct P (m w).1 out
    go (ok p) k h = subst (AnswersProduct P (m w).1) (ok-injective h) (p, k p refl, refl)
    go (err e) k h = absurd (cc h)

pub unit_answered :
    (P : AssetUnit → Type 0) (m : Exec World AssetUnit) (w : World) (out : Response)
    → ((u : AssetUnit) → (m w).0 ≡ ok u → FoundUnit P u (m w).1)
    → (respond unit_answer m w).0 ≡ ok out
    → AnswersUnit P (m w).1 out
unit_answered P m w out k h = go (m w).0 k h
  where
    go :
        (r : Result AssetUnit)
        → ((u : AssetUnit) → r ≡ ok u → FoundUnit P u (m w).1)
        → answered (unit_answer (m w).1) r ≡ ok out
        → AnswersUnit P (m w).1 out
    go (ok u) k h = subst (AnswersUnit P (m w).1) (ok-injective h) (u, k u refl, refl)
    go (err e) k h = absurd (cc h)

pub no_answer :
    {A : Type 0} (r : Result A) (out : Response)
    → answered (λ _. no_body) r ≡ ok out
    → out ≡ no_body
no_answer (ok a) out h = cc
no_answer (err e) out h = absurd (cc h)
