-- ===== src/Orders/Bookings/AssignedItems.antt =====
-- Where the items of an order come from after units were assigned.
use rental_be_nest.Prelude.{
  ℕ, ◌≡◌, refl, sym, ap, ◌∙◌, ◌⊎◌, inl, inr, true, false, some, List, [], ◌∷◌, map, Memᴰ, Memᴰ-map,
  map_get-Memᴰ, map_get, includes, arith, Option-cases, ==_iff, Bool-cases, ◌==◌,
}
use rental_be_nest.Catalog.{AssetUnit}
use rental_be_nest.Orders.Tables.{RentalOrder, OrderItem}
use rental_be_nest.Orders.Service.Assign.{AssignIn, can_assign, assign_item, assign_items}
use rental_be_nest.Orders.Bookings.{blocks, SamePeriod}

-- Where a row of an assignment comes from.
pub record IsAssigned (is : List AssignIn) (rows : List OrderItem) (i : OrderItem) : Type 0 where
  pub row : OrderItem
  pub mem : Memᴰ row rows
  pub same_id : i.id ≡ row.id
  pub same_order : i.order_id ≡ row.order_id
  pub same_deleted : i.deleted_at ≡ row.deleted_at
  pub unit :
      (i.asset_unit_id ≡ row.asset_unit_id)
      ⊎ ((e : AssignIn) × Memᴰ e is
          × (row.id ≡ e.item_id)
          × (i.asset_unit_id ≡ some e.asset_unit_id))

pub assign_one :
    (e : AssignIn) (is : List AssignIn) (rows : List OrderItem) (i : OrderItem)
    → IsAssigned is (map (assign_item e) rows) i
    → IsAssigned (e ∷ is) rows i
assign_one e is rows i c =
    let (row, was, same) = Memᴰ-map (assign_item e) rows c.mem in
    elim (Bool-cases (row.id == e.item_id)) [
      | inl t ↦
          let same' : c.row ≡ record row { asset_unit_id = some e.asset_unit_id } =
            same ∙ rw (t) refl in
          record {
            row = row;
            mem = was;
            same_id = c.same_id ∙ ap (λ (i : OrderItem). i.id) same';
            same_order = c.same_order ∙ ap (λ (i : OrderItem). i.order_id) same';
            same_deleted = c.same_deleted ∙ ap (λ (i : OrderItem). i.deleted_at) same';
            unit = elim c.unit [
              | inl kept ↦ inr (
                e,
                Memᴰ.head refl,
                (==_iff row.id e.item_id).0 t,
                kept ∙ ap (λ (i : OrderItem). i.asset_unit_id) same',
              )
              | inr (f, mf, is_f, named) ↦
                  inr (f, Memᴰ.tail mf, ap (λ (i : OrderItem). i.id) (sym same') ∙ is_f, named)
            ];
          }
      | inr n ↦
          let same' : c.row ≡ row = same ∙ rw (n) refl in
          record {
            row = row;
            mem = was;
            same_id = c.same_id ∙ ap (λ (i : OrderItem). i.id) same';
            same_order = c.same_order ∙ ap (λ (i : OrderItem). i.order_id) same';
            same_deleted = c.same_deleted ∙ ap (λ (i : OrderItem). i.deleted_at) same';
            unit = elim c.unit [
              | inl kept ↦ inl (kept ∙ ap (λ (i : OrderItem). i.asset_unit_id) same')
              | inr (f, mf, is_f, named) ↦
                  inr (f, Memᴰ.tail mf, ap (λ (i : OrderItem). i.id) (sym same') ∙ is_f, named)
            ];
          }
    ]

pub assign_items-IsAssigned :
    (is : List AssignIn) (rows : List OrderItem) {i : OrderItem}
    → Memᴰ i (assign_items is rows)
    → IsAssigned is rows i
unfolding assign_items
assign_items-IsAssigned [] rows {i} m = record {
  row = i;
  mem = m;
  same_id = refl;
  same_order = refl;
  same_deleted = refl;
  unit = inl refl;
}
assign_items-IsAssigned (e ∷ is) rows {i} m =
    assign_one e is rows i (assign_items-IsAssigned is (map (assign_item e) rows) m)

-- An entry that passes the check names an item of the order, and a unit that is not booked.
pub can_assign-item :
    (items : List OrderItem) (units : List AssetUnit) (booked : List ℕ) (e : AssignIn)
    → can_assign items units booked e ≡ true
    → ((item : OrderItem) × Memᴰ item items × (item.id ≡ e.item_id))
      × (includes booked e.asset_unit_id ≡ false)
can_assign-item items units booked e h =
    elim (Option-cases (map_get (λ (o : OrderItem). o.id) items e.item_id)) [
      | inl missing ↦ absurd (ground (arith, h, missing))
      | inr (item, there) ↦
          let (m, is_id) = map_get-Memᴰ (λ (o : OrderItem). o.id) items e.item_id there in
          ((item, m, is_id), ground (arith, h))
    ]

-- Versions of a row that agree in what bookings read.
pub same_of :
    (before after o : RentalOrder)
    → after.id ≡ before.id
    → after.start_date ≡ before.start_date
    → after.blocked_end_date ≡ before.blocked_end_date
    → blocks after ≡ blocks before
    → o ≡ after
    → SamePeriod o before × (blocks o ≡ blocks before)
same_of before after o i s e b same = (
  record {
    id = ap (λ (o : RentalOrder). o.id) same ∙ i;
    start_date = ap (λ (o : RentalOrder). o.start_date) same ∙ s;
    blocked_end_date = ap (λ (o : RentalOrder). o.blocked_end_date) same ∙ e;
  },
  ap blocks same ∙ b,
)

pub some-injective : {a b : ℕ} → some a ≡ some b → a ≡ b
some-injective h = cc
