-- ===== src/Store/Policy/Reading.antt =====
-- What an order reads as its policy.
use rental_be_nest.Prelude.{ℕ, ◌≡◌, refl, false, arith}
use rental_be_nest.Result.{ok, not_found, or_fail, rental_policy_not_found}
use rental_be_nest.Store.Cache.{Redis}
use rental_be_nest.Store.Cache.Coherence.{Agrees, get_or_set_json-Agrees, get_or_set_json_keeps}
use rental_be_nest.Store.Policy.{
  PolicyState, get_default_policy_for_order, UpdateRentalPolicy, load_policy, update_rental_policy,
}

-- The cache holds nothing but the row.
abbrev pub IsCoherent : PolicyState → Type 0
IsCoherent s = Agrees s.cell s.row

-- From a coherent state an order reads the row, whatever Redis calls fail, and the state stays
-- coherent with the same row; with no row the call answers that there is no policy.
pub get_default_policy_for_order_reads :
    (redis : Redis) (s : PolicyState)
    → IsCoherent s
    → ((get_default_policy_for_order redis s).0 ≡ or_fail s.row (not_found rental_policy_not_found))
      × ((get_default_policy_for_order redis s).1.row ≡ s.row)
      × IsCoherent (get_default_policy_for_order redis s).1
unfolding get_default_policy_for_order
get_default_policy_for_order_reads redis s h =
    let (value, agrees) = get_or_set_json-Agrees redis load_policy s.cell s.row h in
    let same =
      get_or_set_json_keeps redis load_policy (λ row. row ≡ s.row) s.cell s.row refl refl in
    (rw value refl, same, rw same agrees)

-- After an update whose cache delete succeeds, every later read gives the updated row.
pub update-get_default_policy :
    (redis later : Redis) (id now : ℕ) (dto : UpdateRentalPolicy) (s : PolicyState)
    → redis.del_fails ≡ false
    → (get_default_policy_for_order later (update_rental_policy redis id now dto s).1).0
      ≡ ok (update_rental_policy redis id now dto s).0
unfolding get_default_policy_for_order update_rental_policy
update-get_default_policy redis later id now dto s h = ground arith
