-- ===== src/Orders/Lifecycle.antt =====
-- What the table of rental orders promises over time: the moves of a status, what an order keeps, and
-- what becomes of the rows, whatever src/modules/rental-orders/rental-orders.service.ts does.
pub mod Rows
pub mod Statuses
pub mod Writes
pub mod Changes
pub mod Drafts
pub mod Refined
pub mod Audit
use rental_be_nest.Prelude.{
  ℕ, ◌≡◌, refl, ◌∙◌, Bool, true, false, String, List, [], ◌∷◌, Memᴰ, Bool-cases, inl, inr, ◌⊎◌,
  subst, sym,
}
use rental_be_nest.Catalog.{is_null}
use rental_be_nest.Orders.Tables.{OrderStatus, RentalOrder, Totals, CustomerSnapshot}

-- One move of an order's status.
pub data Moves : OrderStatus → OrderStatus → Type 0 where
  confirms : Moves OrderStatus.draft OrderStatus.confirmed
  cancels_draft : Moves OrderStatus.draft OrderStatus.cancelled
  cancels_confirmed : Moves OrderStatus.confirmed OrderStatus.cancelled
  cancels_preparing : Moves OrderStatus.preparing OrderStatus.cancelled
  cancels_ready : Moves OrderStatus.ready_for_pickup OrderStatus.cancelled
  cancels_delivering : Moves OrderStatus.delivering OrderStatus.cancelled

-- Any number of moves.
pub data Leads : OrderStatus → OrderStatus → Type 0 where
  stays : (s : OrderStatus) → Leads s s
  goes : {s t u : OrderStatus} → Moves s t → Leads t u → Leads s u

pub Leads-trans : {s t u : OrderStatus} → Leads s t → Leads t u → Leads s u
Leads-trans (stays s) k = k
Leads-trans (goes m h) k = goes m (Leads-trans h k)

abbrev pub is_draft : OrderStatus → Bool
is_draft OrderStatus.draft = true
is_draft _ = false

Moves-is_draft : {s t : OrderStatus} → Moves s t → is_draft t ≡ false
Moves-is_draft confirms = refl
Moves-is_draft cancels_draft = refl
Moves-is_draft cancels_confirmed = refl
Moves-is_draft cancels_preparing = refl
Moves-is_draft cancels_ready = refl
Moves-is_draft cancels_delivering = refl

-- No move leads back to a draft.
Leads-is_draft : {s t : OrderStatus} → Leads s t → is_draft s ≡ false → is_draft t ≡ false
Leads-is_draft (stays s) h = h
Leads-is_draft (goes m k) h = Leads-is_draft k (Moves-is_draft m)

-- What was agreed with the customer: who rents, when, under which turnaround, and at which price.
pub record Terms : Type 0 where
  pub customer_id : ℕ
  pub customer : CustomerSnapshot
  pub start_date : ℕ
  pub end_date : ℕ
  pub turnaround_minutes : ℕ
  pub blocked_end_date : ℕ
  pub totals : Totals

abbrev pub terms_of : RentalOrder → Terms
terms_of o = record {
  customer_id = o.customer_id;
  customer = o.customer;
  start_date = o.start_date;
  end_date = o.end_date;
  turnaround_minutes = o.turnaround_minutes;
  blocked_end_date = o.blocked_end_date;
  totals = o.totals;
}

abbrev pub is_live : RentalOrder → Bool
is_live o = is_null o.deleted_at

-- A row, and the same row later: the id and the code stay, the status goes along the moves, the terms
-- are fixed once the order is no draft, a deleted order stays deleted with its status, and an order is
-- deleted only as a draft or when it is cancelled.
pub record Evolves (o o' : RentalOrder) : Type 0 where
  pub id : o'.id ≡ o.id
  pub code : o'.code ≡ o.code
  pub status : Leads o.status o'.status
  pub terms : is_draft o.status ≡ false → terms_of o' ≡ terms_of o
  pub deleted : is_live o ≡ false → (is_live o' ≡ false) × (o'.status ≡ o.status)
  pub deletes :
      is_live o ≡ true
      → is_live o' ≡ false
      → (o'.status ≡ OrderStatus.draft) ⊎ (o'.status ≡ OrderStatus.cancelled)

pub Evolves-refl : (o : RentalOrder) → Evolves o o
Evolves-refl o = record {
  id = refl;
  code = refl;
  status = stays o.status;
  terms = λ h. refl;
  deleted = λ h. (h, refl);
  deletes = λ h k. cc;
}

pub Evolves-trans : {o p q : RentalOrder} → Evolves o p → Evolves p q → Evolves o q
Evolves-trans {o} {p} {q} h k = record {
  id = k.id ∙ h.id;
  code = k.code ∙ h.code;
  status = Leads-trans h.status k.status;
  terms = λ d. k.terms (Leads-is_draft h.status d) ∙ h.terms d;
  deleted = λ d.
      let (gone, same) = h.deleted d in let (still, kept) = k.deleted gone in (still, kept ∙ same);
  deletes = λ alive gone. elim (Bool-cases (is_live p)) [
    | inl yet ↦ k.deletes yet gone
    | inr before ↦
        subst (λ s. (s ≡ OrderStatus.draft) ⊎ (s ≡ OrderStatus.cancelled))
          (sym (k.deleted before).1) (h.deletes alive before)
  ];
}

-- The row of a new order: whatever it has become, it began as a draft.
abbrev pub BeganAsDraft : RentalOrder → Type 0
BeganAsDraft o = Leads OrderStatus.draft o.status

-- The table, and the table later: every row is still in its place, as it has evolved, and after them
-- stand the orders that were created.
pub data Evolution : List RentalOrder → List RentalOrder → Type 0 where
  created :
      {new : List RentalOrder}
      → ((o : RentalOrder) → Memᴰ o new → BeganAsDraft o)
      → Evolution [] new
  row :
      {o o' : RentalOrder} {os os' : List RentalOrder}
      → Evolves o o'
      → Evolution os os'
      → Evolution (o ∷ os) (o' ∷ os')
