-- ===== src/World/Frames.antt =====
-- Actions that leave the tables of orders, products, asset units and closures alone, with the messages sent, the
-- locks held and the ids drawn: what they may write are the policy, the hours and their cached keys.
use rental_be_nest.Prelude.{◌≡◌, refl, ◌∙◌}
use rental_be_nest.Result.{Result, ok, err}
use rental_be_nest.Exec.{Exec, pure, reads, lift, continue, ◌>>=◌}
use rental_be_nest.World.{World}

pub record SameTables (w w' : World) : Type 0 where
  pub rentals : w'.rentals ≡ w.rentals
  pub catalog : w'.catalog ≡ w.catalog
  pub messages : w'.messages ≡ w.messages
  pub locks : w'.locks ≡ w.locks
  pub next_id : w'.next_id ≡ w.next_id
  pub closures : w'.closures ≡ w.closures

pub SameTables-refl : (w : World) → SameTables w w
SameTables-refl w = record {
  rentals = refl;
  catalog = refl;
  messages = refl;
  locks = refl;
  next_id = refl;
  closures = refl;
}

pub SameTables-trans : {u v w : World} → SameTables u v → SameTables v w → SameTables u w
SameTables-trans p q = record {
  rentals = q.rentals ∙ p.rentals;
  catalog = q.catalog ∙ p.catalog;
  messages = q.messages ∙ p.messages;
  locks = q.locks ∙ p.locks;
  next_id = q.next_id ∙ p.next_id;
  closures = q.closures ∙ p.closures;
}

-- Whether the action returns or throws.
pub record Frames {A : Type 0} (m : Exec World A) : Type 0 where
  pub at : (w : World) → SameTables w (m w).1

module _ {A : Type 0} where
  pub Frames-pure : (a : A) → Frames (pure a)
  unfolding pure
  Frames-pure a = record { at = SameTables-refl }

  pub Frames-lift : (r : Result A) → Frames (lift r)
  unfolding lift
  Frames-lift r = record { at = SameTables-refl }

  pub Frames-reads : (f : World → Result A) → Frames (reads f)
  unfolding reads
  Frames-reads f = record { at = SameTables-refl }

module _ {A B : Type 0} where
  pub Frames-bind :
      (m : Exec World A) (f : A → Exec World B)
      → Frames m
      → ((a : A) → Frames (f a))
      → Frames (m >>= f)
  unfolding ◌>>=◌
  Frames-bind m f h k = record { at = λ w. after w (m w).0 (m w).1 (h.at w) }
    where
      after :
          (w : World) (r : Result A) (w' : World)
          → SameTables w w'
          → SameTables w (continue r f w').1
      after w (ok a) w' s = SameTables-trans s ((k a).at w')
      after w (err e) w' s = s

pub ruleset frame_rules = (Frames-pure, Frames-lift, Frames-reads, Frames-bind)
