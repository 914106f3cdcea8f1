-- ===== src/Orders/Lifecycle/Rows.antt =====
-- How the writes of rows show in the evolution of a table.
use rental_be_nest.Prelude.{
  ℕ, ◌≡◌, refl, sym, ap, subst, ◌∙◌, true, some, List, [], ◌∷◌, ◌++◌, map, find, Memᴰ, Memᴰ-map,
  Memᴰ-find, Memᴰ-append, Memᴰ-single, arith, inl, inr, ◌<◌, Bool-cases, ==_iff, ◌==◌,
}
use rental_be_nest.Orders.Tables.{RentalOrder, OrderStatus}
use rental_be_nest.Orders.Service.{is_live_order}
use rental_be_nest.Orders.Bookings.Rows.{one_row, find_live-id}
use rental_be_nest.Orders.Lifecycle.{
  Evolves, Evolves-refl, Evolves-trans, Evolution, created, row, BeganAsDraft, Leads-trans, stays,
  is_live,
}

pub Evolution-refl : (os : List RentalOrder) → Evolution os os
Evolution-refl [] = created (λ o m. elim m [ ])
Evolution-refl (o ∷ os) = row (Evolves-refl o) (Evolution-refl os)

created_evolves :
    {new later : List RentalOrder}
    → ((o : RentalOrder) → Memᴰ o new → BeganAsDraft o)
    → Evolution new later
    → (o : RentalOrder) → Memᴰ o later
    → BeganAsDraft o
created_evolves began (created more) o m = more o m
created_evolves began (row {o = p} e rest) o (Memᴰ.head same) =
    subst BeganAsDraft (sym same) (Leads-trans (began p (Memᴰ.head refl)) e.status)
created_evolves began (row e rest) o (Memᴰ.tail m) =
    created_evolves (λ p k. began p (Memᴰ.tail k)) rest o m

pub Evolution-trans : {a b c : List RentalOrder} → Evolution a b → Evolution b c → Evolution a c
Evolution-trans (created began) k = created (created_evolves began k)
Evolution-trans (row e rest) (row e' rest') = row (Evolves-trans e e') (Evolution-trans rest rest')

pub map-Evolution :
    (g : RentalOrder → RentalOrder) (os : List RentalOrder)
    → ((o : RentalOrder) → Memᴰ o os → Evolves o (g o))
    → Evolution os (map g os)
map-Evolution g [] e = created (λ o m. elim m [ ])
map-Evolution g (o ∷ os) e =
    row (e o (Memᴰ.head refl)) (map-Evolution g os (λ p m. e p (Memᴰ.tail m)))

pub append-Evolution :
    (os : List RentalOrder) (o : RentalOrder)
    → o.status ≡ OrderStatus.draft
    → Evolution os (os ++ o ∷ [])
append-Evolution [] o draft = created (λ p m.
    subst BeganAsDraft (sym (Memᴰ-single m))
      (subst (λ s. BeganAsDraft (record o { status = s })) (sym draft) (stays OrderStatus.draft)))
append-Evolution (p ∷ os) o draft = row (Evolves-refl p) (append-Evolution os o draft)

-- `@id` of the schema: an id stands in one row.
abbrev pub HasKeys : List RentalOrder → Type 0
HasKeys os = (o p : RentalOrder) → Memᴰ o os → Memᴰ p os → o.id ≡ p.id → o ≡ p

pub map-HasKeys :
    (g : RentalOrder → RentalOrder) (os : List RentalOrder)
    → ((o : RentalOrder) → (g o).id ≡ o.id)
    → HasKeys os
    → HasKeys (map g os)
map-HasKeys g os keeps keys o p m n same =
    let (o0, mo, eo) = Memᴰ-map g os m in
    let (p0, mp, ep) = Memᴰ-map g os n in
    let ids =
      sym (keeps o0)
      ∙ ap (λ (o : RentalOrder). o.id) (sym eo)
      ∙ same
      ∙ ap (λ (o : RentalOrder). o.id) ep
      ∙ keeps p0 in
    eo ∙ ap g (keys o0 p0 mo mp ids) ∙ sym ep

pub append-HasKeys :
    (os : List RentalOrder) (new : RentalOrder)
    → ((o : RentalOrder) → Memᴰ o os → o.id < new.id)
    → HasKeys os
    → HasKeys (os ++ new ∷ [])
append-HasKeys os new below keys o p m n same = elim (Memᴰ-append os (new ∷ []) m) [
  | inl mo ↦ elim (Memᴰ-append os (new ∷ []) n) [
    | inl mp ↦ keys o p mo mp same
    | inr kp ↦
        let low = below o mo in
        let is_new = ap (λ (o : RentalOrder). o.id) (Memᴰ-single kp) in
        absurd (omega (arith, low, is_new, same))
  ]
  | inr ko ↦ elim (Memᴰ-append os (new ∷ []) n) [
    | inl mp ↦
        let low = below p mp in
        let is_new = ap (λ (o : RentalOrder). o.id) (Memᴰ-single ko) in
        absurd (omega (arith, low, is_new, same))
    | inr kp ↦ Memᴰ-single ko ∙ sym (Memᴰ-single kp)
  ]
]

-- A write of the live row of an id evolves every row when it evolves that one.
pub one_row-Evolves :
    (id : ℕ) (f : RentalOrder → RentalOrder) (os : List RentalOrder) (existing : RentalOrder)
    → HasKeys os
    → find (is_live_order id) os ≡ some existing
    → (is_live existing ≡ true → Evolves existing (f existing))
    → (o : RentalOrder) → Memᴰ o os
    → Evolves o (one_row id f o)
one_row-Evolves id f os existing keys found evolves o m =
    let (there, passes) = Memᴰ-find (is_live_order id) os found in
    let live : is_live existing ≡ true = ground (arith, passes) in
    elim (Bool-cases (o.id == id)) [
      | inr other ↦ rw (other) (Evolves-refl o)
      | inl here ↦
          let is_it =
            keys existing o there m (find_live-id id os found ∙ sym ((==_iff o.id id).0 here)) in
          rw (here) (subst (λ o. Evolves o (f o)) is_it (evolves live))
    ]
