-- ===== src/Orders/Bookings/Kept.antt =====
-- Where the items of an updated order come from.
use rental_be_nest.Prelude.{
  ℕ, ◌≡◌, refl, sym, ap, ◌∙◌, ◌⊎◌, inl, inr, true, false, some, List, [], ◌∷◌, map, Memᴰ, Memᴰ-map,
  arith, Bool-cases, Option-cases, ◌==◌, ==_iff,
}
use rental_be_nest.Orders.Tables.{
  OrderItem, OrderStatus, PricedItem, status_in, blocking_order_statuses,
}
use rental_be_nest.Orders.Pricing.{update_order_item}
use rental_be_nest.Orders.Service.Update.{update_item_row, update_item_rows}

pub draft_is_free :
    (s : OrderStatus)
    → status_in s (OrderStatus.draft ∷ []) ≡ true
    → status_in s blocking_order_statuses ≡ false
unfolding status_in
draft_is_free s h = ground (arith, h)

-- Where an item comes from: a row of the same order and unit, or a row of the updated order.
pub record IsKept (id : ℕ) (rows : List OrderItem) (i : OrderItem) : Type 0 where
  pub row : OrderItem
  pub mem : Memᴰ row rows
  pub same_id : i.id ≡ row.id
  pub same_order : i.order_id ≡ row.order_id
  pub same_deleted : i.deleted_at ≡ row.deleted_at
  pub unit : (i.asset_unit_id ≡ row.asset_unit_id) ⊎ (i.order_id ≡ id)

abbrev pub AllOfOrder : ℕ → List OrderItem → List PricedItem → Type 0
AllOfOrder id rows ps =
    (p : PricedItem) (row : OrderItem)
    → Memᴰ p ps
    → Memᴰ row rows
    → p.item.id ≡ some row.id
    → row.order_id ≡ id

-- A row as the update of one item leaves it.
pub record IsRewritten (id : ℕ) (row i : OrderItem) : Type 0 where
  pub same_id : i.id ≡ row.id
  pub same_order : i.order_id ≡ row.order_id
  pub same_deleted : i.deleted_at ≡ row.deleted_at
  pub unit : (i.asset_unit_id ≡ row.asset_unit_id) ⊎ (i.order_id ≡ id)

pub update_one :
    (id : ℕ) (p : PricedItem) (row : OrderItem)
    → (p.item.id ≡ some row.id → row.order_id ≡ id)
    → IsRewritten id row (update_item_row p row)
unfolding update_order_item
update_one id p row of_order = elim (Option-cases p.item.id) [
  | inl missing ↦
      rw (missing)
        record { same_id = refl; same_order = refl; same_deleted = refl; unit = inl refl }
  | inr (k, there) ↦ elim (Bool-cases (row.id == k)) [
    | inl t ↦
        rw (there, t)
          record {
            same_id = refl;
            same_order = refl;
            same_deleted = refl;
            unit = inr (of_order (there ∙ ap some (sym ((==_iff row.id k).0 t))));
          }
    | inr f ↦
        rw (there, f)
          record { same_id = refl; same_order = refl; same_deleted = refl; unit = inl refl }
  ]
]

pub update_item_rows-IsKept :
    (id : ℕ) (ps : List PricedItem) (rows : List OrderItem)
    → AllOfOrder id rows ps
    → {i : OrderItem} → Memᴰ i (update_item_rows ps rows)
    → IsKept id rows i
unfolding update_item_rows
update_item_rows-IsKept id [] rows all {i} m = record {
  row = i;
  mem = m;
  same_id = refl;
  same_order = refl;
  same_deleted = refl;
  unit = inl refl;
}
update_item_rows-IsKept id (p ∷ ps) rows all {i} m =
    let rewritten = λ (row : OrderItem) (was : Memᴰ row rows).
      update_one id p row (all p row (Memᴰ.head refl) was) in
    let all' : AllOfOrder id (map (update_item_row p) rows) ps = λ q row' mq mr e.
      let (row, was, is_row) = Memᴰ-map (update_item_row p) rows mr in
      let x = rewritten row was in
      ap (λ (i : OrderItem). i.order_id) is_row
      ∙ x.same_order
      ∙ all q row (Memᴰ.tail mq) was
          (e ∙ ap (λ (i : OrderItem). some i.id) is_row ∙ ap some x.same_id) in
    let later = update_item_rows-IsKept id ps (map (update_item_row p) rows) all' {i = i} m in
    let (row, was, is_row) = Memᴰ-map (update_item_row p) rows later.mem in
    let x = rewritten row was in
    record {
      row = row;
      mem = was;
      same_id = later.same_id ∙ ap (λ (i : OrderItem). i.id) is_row ∙ x.same_id;
      same_order = later.same_order ∙ ap (λ (i : OrderItem). i.order_id) is_row ∙ x.same_order;
      same_deleted =
          later.same_deleted ∙ ap (λ (i : OrderItem). i.deleted_at) is_row ∙ x.same_deleted;
      unit = elim later.unit [
        | inr of_order ↦ inr of_order
        | inl kept ↦ elim x.unit [
          | inl same ↦ inl (kept ∙ ap (λ (i : OrderItem). i.asset_unit_id) is_row ∙ same)
          | inr of_order ↦
              inr (later.same_order ∙ ap (λ (i : OrderItem). i.order_id) is_row ∙ of_order)
        ]
      ];
    }
