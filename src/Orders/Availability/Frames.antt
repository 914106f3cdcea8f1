-- ===== src/Orders/Availability/Frames.antt =====
-- The availability check writes no order, no item, no product and no asset unit.
use rental_be_nest.Prelude.{ℕ, refl, Option, none, some}
use rental_be_nest.Exec.{pure, ◌>>=◌}
use rental_be_nest.World.Frames.{Frames, frame_rules, Frames-pure, Frames-bind}
use rental_be_nest.Store.Hours.{WallClock}
use rental_be_nest.Orders.Availability.{
  EvaluateParams, read_policy, first_given, effective_turnaround, assert_open,
  evaluate_availability, policy_minutes,
}

pub read_policy-Frames : Frames read_policy
unfolding read_policy
read_policy-Frames = record {
  at = λ w. record {
    rentals = refl;
    catalog = refl;
    messages = refl;
    locks = refl;
    next_id = refl;
    closures = refl;
  };
}

pub assert_open-Frames : (clock : WallClock) (s e : ℕ) → Frames (assert_open clock s e)
unfolding assert_open
assert_open-Frames clock s e = record {
  at = λ w. record {
    rentals = refl;
    catalog = refl;
    messages = refl;
    locks = refl;
    next_id = refl;
    closures = refl;
  };
}

turnaround_or_policy-Frames :
    (given : Option ℕ)
    → Frames {A = ℕ} (elim given [
      | some minutes ↦ pure minutes
      | none ↦ do policy ← read_policy; pure policy.turnaround_minutes
    ])
turnaround_or_policy-Frames (some minutes) = Frames-pure minutes
turnaround_or_policy-Frames none =
    Frames-bind read_policy _ read_policy-Frames (λ policy. Frames-pure policy.turnaround_minutes)

pub effective_turnaround-Frames : (p : EvaluateParams) → Frames (effective_turnaround p)
unfolding effective_turnaround
effective_turnaround-Frames p =
    turnaround_or_policy-Frames (first_given p.turnaround_minutes (policy_minutes p.rental_policy))

pub evaluate_availability-Frames :
    (clock : WallClock) (p : EvaluateParams) → Frames (evaluate_availability clock p)
unfolding evaluate_availability
evaluate_availability-Frames clock p =
    search (frame_rules, effective_turnaround-Frames, assert_open-Frames) depth 12
