-- ===== src/Orders/Lifecycle/Statuses.antt =====
-- The statuses that the service's guards let through, and the rows that its writes leave.
use rental_be_nest.Prelude.{◌≡◌, refl, ap, ◌∙◌, ℕ, true, false, [], ◌∷◌, inl, inr, ◌⊎◌}
use rental_be_nest.Catalog.{is_null}
use rental_be_nest.Orders.Tables.{RentalOrder, OrderStatus, status_in}
use rental_be_nest.Orders.Service.Cancel.{cancelable_statuses}
use rental_be_nest.Orders.Service.Delete.{soft_deletable_statuses, deleted_order}
use rental_be_nest.Orders.Lifecycle.{Moves, Leads, stays, Evolves, is_live, is_draft, terms_of}

-- The status that `assertStatusIn` lets through.
pub is_draft_status :
    (s : OrderStatus) → status_in s (OrderStatus.draft ∷ []) ≡ true → s ≡ OrderStatus.draft
unfolding status_in
is_draft_status OrderStatus.draft h = refl
is_draft_status OrderStatus.confirmed h = cc
is_draft_status OrderStatus.preparing h = cc
is_draft_status OrderStatus.ready_for_pickup h = cc
is_draft_status OrderStatus.delivering h = cc
is_draft_status OrderStatus.renting h = cc
is_draft_status OrderStatus.overdue h = cc
is_draft_status OrderStatus.returned h = cc
is_draft_status OrderStatus.completed h = cc
is_draft_status OrderStatus.cancelled h = cc
is_draft_status OrderStatus.refunding h = cc
is_draft_status OrderStatus.refunded h = cc
is_draft_status OrderStatus.disputed h = cc

pub cancel-Moves :
    (s : OrderStatus) → status_in s cancelable_statuses ≡ true → Moves s OrderStatus.cancelled
unfolding status_in
cancel-Moves OrderStatus.draft h = Moves.cancels_draft
cancel-Moves OrderStatus.confirmed h = Moves.cancels_confirmed
cancel-Moves OrderStatus.preparing h = Moves.cancels_preparing
cancel-Moves OrderStatus.ready_for_pickup h = Moves.cancels_ready
cancel-Moves OrderStatus.delivering h = Moves.cancels_delivering
cancel-Moves OrderStatus.renting h = cc
cancel-Moves OrderStatus.overdue h = cc
cancel-Moves OrderStatus.returned h = cc
cancel-Moves OrderStatus.completed h = cc
cancel-Moves OrderStatus.cancelled h = cc
cancel-Moves OrderStatus.refunding h = cc
cancel-Moves OrderStatus.refunded h = cc
cancel-Moves OrderStatus.disputed h = cc

deletable_statuses :
    (s : OrderStatus)
    → status_in s soft_deletable_statuses ≡ true
    → (s ≡ OrderStatus.draft) ⊎ (s ≡ OrderStatus.cancelled)
unfolding status_in
deletable_statuses OrderStatus.draft h = inl refl
deletable_statuses OrderStatus.confirmed h = cc
deletable_statuses OrderStatus.preparing h = cc
deletable_statuses OrderStatus.ready_for_pickup h = cc
deletable_statuses OrderStatus.delivering h = cc
deletable_statuses OrderStatus.renting h = cc
deletable_statuses OrderStatus.overdue h = cc
deletable_statuses OrderStatus.returned h = cc
deletable_statuses OrderStatus.completed h = cc
deletable_statuses OrderStatus.cancelled h = inr refl
deletable_statuses OrderStatus.refunding h = cc
deletable_statuses OrderStatus.refunded h = cc
deletable_statuses OrderStatus.disputed h = cc

-- A row that keeps all but its status, which moves, or other columns.
pub live_row-Evolves :
    (o o' : RentalOrder)
    → o'.id ≡ o.id
    → o'.code ≡ o.code
    → Leads o.status o'.status
    → (is_draft o.status ≡ false → terms_of o' ≡ terms_of o)
    → o'.deleted_at ≡ o.deleted_at
    → is_live o ≡ true
    → Evolves o o'
live_row-Evolves o o' id code status terms stays_live live =
    let live' = ap is_null stays_live ∙ live in
    record {
      id = id;
      code = code;
      status = status;
      terms = terms;
      deleted = λ gone. absurd (cc (gone, live));
      deletes = λ _ gone. absurd (cc (gone, live'));
    }

-- What a soft deletion does to a row.
pub deleted_order-Evolves :
    (now user : ℕ) (o : RentalOrder)
    → status_in o.status soft_deletable_statuses ≡ true
    → Evolves o (deleted_order now user o)
deleted_order-Evolves now user o h = record {
  id = refl;
  code = refl;
  status = stays o.status;
  terms = λ d. refl;
  deleted = λ gone. (refl, refl);
  deletes = λ alive gone. deletable_statuses o.status h;
}
