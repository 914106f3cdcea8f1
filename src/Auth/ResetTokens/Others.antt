-- ===== src/Auth/ResetTokens/Others.antt =====
-- The operations on reset tokens write no key of another kind.
use rental_be_nest.Prelude.{ℕ, ◌≡◌, refl, String, false, Option, none, some, inl, inr, Bool-cases}
use rental_be_nest.Auth.Tables.{VerifiedToken}
use rental_be_nest.Auth.Redis.{
  RedisClient, IsLawful, Key, Value, plain, number, session_json, payload_json,
  password_reset_token, password_reset_user, key_eq,
}
use rental_be_nest.Auth.Redis.SameKey.{
  SameKey, SameKey-refl, SameKey-trans, set-SameKey, del-SameKey,
}
use rental_be_nest.Auth.Setup.{Setup, AuthState}
use rental_be_nest.Auth.Sessions.Index.{
  SameSessions, SameSessions-refl, SameSessions-trans, set-SameSessions, del-SameSessions,
}
use rental_be_nest.Auth.ResetTokens.{
  drop_existing, create_for_user, is_active, check_active, consume,
}

-- A key that belongs to no reset token.
abbrev pub IsNoToken : Key → Type 0
IsNoToken j =
    ((h : String) → key_eq j (password_reset_token h) ≡ false)
    × ((u : ℕ) → key_eq j (password_reset_user u) ≡ false)

module _ (R : RedisClient) (laws : IsLawful R) (c : Setup) where
  drop_existing-SameSessions :
      (v : Option Value) (store : R.Store) → SameSessions R store (drop_existing R c v store)
  drop_existing-SameSessions none store = SameSessions-refl R store
  drop_existing-SameSessions (some (plain h)) store =
      del-SameSessions R laws _ store (λ i. refl) (λ u. refl)
  drop_existing-SameSessions (some (number n)) store = SameSessions-refl R store
  drop_existing-SameSessions (some (session_json s)) store = SameSessions-refl R store
  drop_existing-SameSessions (some (payload_json u)) store = SameSessions-refl R store

  pub create_for_user-SameSessions :
      (u : ℕ) (w : AuthState R) → SameSessions R w.redis (create_for_user R c u w).1.redis
  unfolding create_for_user
  create_for_user-SameSessions u w =
      let dropped = drop_existing R c (R.get (password_reset_user u) w.redis) w.redis in
      let h = c.hash_reset_token (c.random_token w.next_draw) in
      let stored =
        R.set (password_reset_token h) (payload_json u) c.reset_expires_in_seconds dropped in
      SameSessions-trans R w.redis stored _
        (SameSessions-trans R w.redis dropped stored
          (drop_existing-SameSessions (R.get (password_reset_user u) w.redis) w.redis)
          (set-SameSessions R laws _ _ _ dropped ((λ i. refl), (λ u. refl))))
        (set-SameSessions R laws _ _ _ stored ((λ i. refl), (λ u. refl)))

  pub check_active-SameSessions :
      (h : String) (u : ℕ) (w : AuthState R)
      → SameSessions R w.redis (check_active R c h u w).1.redis
  unfolding check_active
  check_active-SameSessions h u w =
      elim (Bool-cases (is_active (R.get (password_reset_user u) w.redis) h)) [
        | inl t ↦ rw (t) (SameSessions-refl R w.redis)
        | inr f ↦ rw (f) (del-SameSessions R laws _ w.redis (λ i. refl) (λ u. refl))
      ]

  pub consume-SameSessions :
      (token : VerifiedToken) (store : R.Store) → SameSessions R store (consume R c token store)
  unfolding consume
  consume-SameSessions token store = del-SameSessions R laws _ store (λ i. refl) (λ u. refl)

  module _ (j : Key) (other : IsNoToken j) where
    drop_existing-SameKey :
        (v : Option Value) (store : R.Store) → SameKey R j store (drop_existing R c v store)
    drop_existing-SameKey none store = SameKey-refl R j store
    drop_existing-SameKey (some (plain h)) store =
        del-SameKey R laws j _ store (rw (other.0 h) refl)
    drop_existing-SameKey (some (number n)) store = SameKey-refl R j store
    drop_existing-SameKey (some (session_json s)) store = SameKey-refl R j store
    drop_existing-SameKey (some (payload_json u)) store = SameKey-refl R j store

    pub create_for_user-SameKey :
        (u : ℕ) (w : AuthState R) → SameKey R j w.redis (create_for_user R c u w).1.redis
    unfolding create_for_user
    create_for_user-SameKey u w =
        let dropped = drop_existing R c (R.get (password_reset_user u) w.redis) w.redis in
        let h = c.hash_reset_token (c.random_token w.next_draw) in
        let stored =
          R.set (password_reset_token h) (payload_json u) c.reset_expires_in_seconds dropped in
        SameKey-trans R j w.redis stored _
          (SameKey-trans R j w.redis dropped stored
            (drop_existing-SameKey (R.get (password_reset_user u) w.redis) w.redis)
            (set-SameKey R laws j _ _ _ dropped (other.0 h)))
          (set-SameKey R laws j _ _ _ stored (other.1 u))

    pub check_active-SameKey :
        (h : String) (u : ℕ) (w : AuthState R)
        → SameKey R j w.redis (check_active R c h u w).1.redis
    unfolding check_active
    check_active-SameKey h u w =
        elim (Bool-cases (is_active (R.get (password_reset_user u) w.redis) h)) [
          | inl t ↦ rw (t) (SameKey-refl R j w.redis)
          | inr f ↦ rw (f) (del-SameKey R laws j _ w.redis (rw (other.0 h) refl))
        ]

    pub consume-SameKey :
        (token : VerifiedToken) (store : R.Store) → SameKey R j store (consume R c token store)
    unfolding consume
    consume-SameKey token store =
        del-SameKey R laws j _ store (rw (other.0 token.token_hash, other.1 token.user_id) refl)
