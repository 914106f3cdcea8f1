-- ===== src/Orders/Calls/Atomic.antt =====
-- A call that throws has written no order, no item, no history and no event.
use rental_be_nest.Prelude.{
  ℕ, String, ◌≡◌, refl, ◌∙◌, Option, none, some, List, [], inl, inr, Bool-cases, unique,
}
use rental_be_nest.Result.{Result, ok, err, Error}
use rental_be_nest.Exec.{Exec, pure, reads, modify, continue, ◌>>=◌}
use rental_be_nest.World.{World}
use rental_be_nest.World.Frames.{Frames, Frames-reads, Frames-lift, Frames-pure}
use rental_be_nest.Orders.Availability.{is_empty}
use rental_be_nest.Orders.Availability.Frames.{read_policy-Frames, evaluate_availability-Frames}
use rental_be_nest.Orders.Service.{Runtime, transaction, settle}
use rental_be_nest.Orders.Service.Create.{CreateRentalOrder, create_rental_order, create_priced}
use rental_be_nest.Orders.Service.Update.{
  UpdateRentalOrder, update_rental_order, update_checked, update_priced,
}
use rental_be_nest.Orders.Service.Assign.{AssignIn, assign_rental_order_assets}
use rental_be_nest.Orders.Service.Confirm.{confirm_rental_order}
use rental_be_nest.Orders.Service.Cancel.{cancel_rental_order}
use rental_be_nest.Orders.Service.Delete.{delete_rental_orders}
use rental_be_nest.Orders.Calls.{Call, create, update, assign_assets, confirm, cancel, delete, run}

record IsAtomic {A : Type 0} (m : Exec World A) : Type 0 where
  at : (w : World) (e : Error) → (m w).0 ≡ err e → (m w).1.rentals ≡ w.rentals

record NeverFails {A : Type 0} (m : Exec World A) : Type 0 where
  at : (w : World) (e : Error) → (m w).0 ≡ err e → ⊥

module _ {A : Type 0} where
  NeverFails-pure : (a : A) → NeverFails (pure a)
  unfolding pure
  NeverFails-pure a = record { at = λ w e h. cc }

  IsAtomic-transaction : (body : Exec World A) → IsAtomic (transaction body)
  unfolding transaction
  IsAtomic-transaction body = record {
    at = λ w e h. go w (body (record w { locks = [] })).0 (body (record w { locks = [] })).1 e h;
  }
    where
      go :
          (w : World) (r : Result A) (w' : World) (e : Error)
          → (settle w (r, w')).0 ≡ err e
          → (settle w (r, w')).1.rentals ≡ w.rentals
      go w (ok a) w' e h = cc
      go w (err x) w' e h = refl

NeverFails-modify : (f : World → World) → NeverFails (modify f)
unfolding modify
NeverFails-modify f = record { at = λ w e h. cc }

module _ {A B : Type 0} where
  NeverFails-bind :
      (m : Exec World A) (f : A → Exec World B)
      → NeverFails m
      → ((a : A) → NeverFails (f a))
      → NeverFails (m >>= f)
  unfolding ◌>>=◌
  NeverFails-bind m f never k = record { at = λ w e h. go (m w).0 (m w).1 e (never.at w) h }
    where
      go :
          (r : Result A) (w' : World) (e : Error)
          → ((e : Error) → r ≡ err e → ⊥)
          → (continue r f w').0 ≡ err e
          → ⊥
      go (ok a) w' e n h = (k a).at w' e h
      go (err x) w' e n h = n x refl

  -- A part that writes no order may come ahead, and a part that never throws may follow.
  IsAtomic-after :
      (m : Exec World A) (f : A → Exec World B)
      → Frames m
      → ((a : A) → IsAtomic (f a))
      → IsAtomic (m >>= f)
  unfolding ◌>>=◌
  IsAtomic-after m f frames k = record {
    at = λ w e h. go w (m w).0 (m w).1 e (frames.at w).rentals h;
  }
    where
      go :
          (w : World) (r : Result A) (w' : World) (e : Error)
          → w'.rentals ≡ w.rentals
          → (continue r f w').0 ≡ err e
          → (continue r f w').1.rentals ≡ w.rentals
      go w (ok a) w' e same h = (k a).at w' e h ∙ same
      go w (err x) w' e same h = same

  IsAtomic-then :
      (m : Exec World A) (f : A → Exec World B)
      → IsAtomic m
      → ((a : A) → NeverFails (f a))
      → IsAtomic (m >>= f)
  unfolding ◌>>=◌
  IsAtomic-then m f atomic k = record {
    at = λ w e h. go w (m w).0 (m w).1 e (λ e. atomic.at w e) h;
  }
    where
      go :
          (w : World) (r : Result A) (w' : World) (e : Error)
          → ((e : Error) → r ≡ err e → w'.rentals ≡ w.rentals)
          → (continue r f w').0 ≡ err e
          → (continue r f w').1.rentals ≡ w.rentals
      go w (ok a) w' e same h = absurd ((k a).at w' e h)
      go w (err x) w' e same h = same x refl

ruleset atomic_rules = (
  NeverFails-pure, NeverFails-modify, NeverFails-bind, IsAtomic-transaction, IsAtomic-after,
  IsAtomic-then, Frames-pure, Frames-reads, Frames-lift, read_policy-Frames,
  evaluate_availability-Frames,
)

confirm-IsAtomic :
    (runtime : Runtime) (id : ℕ) (message : Option String) (user : ℕ)
    → IsAtomic (confirm_rental_order runtime id message user)
unfolding confirm_rental_order
confirm-IsAtomic runtime id message user = search atomic_rules depth 12

cancel-IsAtomic :
    (runtime : Runtime) (id : ℕ) (cancel_reason : String) (user : ℕ)
    → IsAtomic (cancel_rental_order runtime id cancel_reason user)
unfolding cancel_rental_order
cancel-IsAtomic runtime id cancel_reason user = search atomic_rules depth 16

assign-IsAtomic :
    (id : ℕ) (items : List AssignIn) (user : ℕ)
    → IsAtomic (assign_rental_order_assets id items user)
unfolding assign_rental_order_assets
assign-IsAtomic id items user = search atomic_rules depth 16

create-IsAtomic :
    (runtime : Runtime) (dto : CreateRentalOrder) (user : ℕ)
    → IsAtomic (create_rental_order runtime dto user)
unfolding create_rental_order create_priced
create-IsAtomic runtime dto user = search atomic_rules depth 24

update-IsAtomic :
    (runtime : Runtime) (id : ℕ) (dto : UpdateRentalOrder) (user : ℕ)
    → IsAtomic (update_rental_order runtime id dto user)
unfolding update_rental_order update_checked update_priced
update-IsAtomic runtime id dto user = search atomic_rules depth 30

-- A deletion checks all orders before it writes one.
delete-IsAtomic : (ids : List ℕ) (user : ℕ) → IsAtomic (delete_rental_orders ids user)
unfolding delete_rental_orders
delete-IsAtomic rental_order_ids user = elim (Bool-cases (is_empty (unique rental_order_ids))) [
  | inl t ↦ rw (t) record { at = λ w e h. absurd ((NeverFails-pure tt).at w e h) }
  | inr f ↦ rw (f) record {
    at = λ w e h.
        (IsAtomic-after (reads _) (λ u. modify _) (Frames-reads _)
            (λ u. record { at = λ w e h. absurd ((NeverFails-modify _).at w e h) })).at
          w e h;
  }
]

run-IsAtomic : (runtime : Runtime) (c : Call) → IsAtomic (run runtime c)
unfolding run
run-IsAtomic runtime (create dto user) =
    IsAtomic-then _ _ (create-IsAtomic runtime dto user) (λ o. NeverFails-pure (some o))
run-IsAtomic runtime (update id dto user) =
    IsAtomic-then _ _ (update-IsAtomic runtime id dto user) (λ o. NeverFails-pure (some o))
run-IsAtomic runtime (assign_assets id items user) =
    IsAtomic-then _ _ (assign-IsAtomic id items user) (λ o. NeverFails-pure (some o))
run-IsAtomic runtime (confirm id note user) =
    IsAtomic-then _ _ (confirm-IsAtomic runtime id note user) (λ o. NeverFails-pure (some o))
run-IsAtomic runtime (cancel id cancel_reason user) =
    IsAtomic-then _ _ (cancel-IsAtomic runtime id cancel_reason user)
      (λ o. NeverFails-pure (some o))
run-IsAtomic runtime (delete ids user) =
    IsAtomic-then _ _ (delete-IsAtomic ids user) (λ u. NeverFails-pure none)

-- A call that throws leaves the tables of orders, items, status histories and events as they were.
pub run-error :
    (runtime : Runtime) (c : Call) (w : World) (e : Error)
    → (run runtime c w).0 ≡ err e
    → (run runtime c w).1.rentals ≡ w.rentals
run-error runtime c w e h = (run-IsAtomic runtime c).at w e h
