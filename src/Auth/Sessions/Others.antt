-- ===== src/Auth/Sessions/Others.antt =====
-- The operations on sessions write no key of another kind, and the other operations no session.
use rental_be_nest.Prelude.{
  ℕ, ◌<◌, ◌≡◌, refl, String, false, inl, inr, [], ◌∷◌, arith, Bool-cases, ◌==◌,
}
use rental_be_nest.Auth.Tables.{AuthSession}
use rental_be_nest.Auth.Redis.{
  RedisClient, IsLawful, Key, key_eq, session, user_sessions, session_json, login_attempt_user,
  login_attempt_email, user_lock,
}
use rental_be_nest.Auth.Redis.SameKey.{
  SameKey, SameKey-trans, set-SameKey, del-SameKey, expire-SameKey, sadd-SameKey, srem-SameKey,
  incr-SameKey, IsOther, any-session_keys-other,
}
use rental_be_nest.Auth.Setup.{Setup, refresh_ttl_seconds, login_attempt_seconds}
use rental_be_nest.Auth.Sessions.{save_auth_session, revoke_session, revoke_all_user_sessions}
use rental_be_nest.Auth.Sessions.Index.{
  SameSessions, SameSessions-trans, set-SameSessions, incr-SameSessions, expire-SameSessions,
  del-SameSessions, IsApart,
}
use rental_be_nest.Auth.Sessions.Kept.{refresh_ttl_seconds_pos}
use rental_be_nest.Auth.Attempts.{
  incr_with_ttl, record_unknown_login_failure, record_user_login_failure,
  clear_login_failure_counters,
}

module _ (R : RedisClient) (laws : IsLawful R) (j : Key) (other : IsOther j) where
  pub save_auth_session-SameKey :
      (c : Setup) (s : AuthSession) (store : R.Store)
      → 0 < c.refresh_max_age
      → SameKey R j store (save_auth_session R c s store)
  unfolding save_auth_session
  save_auth_session-SameKey c s store lasts =
      let seconds = refresh_ttl_seconds c in
      let stored = R.set (session s.session_id) (session_json s) seconds store in
      let added = R.sadd (user_sessions s.user_id) s.session_id stored in
      SameKey-trans R j store added _
        (SameKey-trans R j store stored added
          (set-SameKey R laws j _ _ _ store (other.0 s.session_id))
          (sadd-SameKey R laws j _ _ stored (other.1 s.user_id)))
        (expire-SameKey R laws j _ seconds added (refresh_ttl_seconds_pos c lasts)
          (other.1 s.user_id))

  pub revoke_session-SameKey :
      (user_id session_id : ℕ) (store : R.Store)
      → SameKey R j store (revoke_session R user_id session_id store)
  unfolding revoke_session
  revoke_session-SameKey user_id session_id store =
      let dropped = R.del (session session_id ∷ []) store in
      SameKey-trans R j store dropped _
        (del-SameKey R laws j (session session_id ∷ []) store (rw (other.0 session_id) refl))
        (srem-SameKey R laws j _ _ dropped (other.1 user_id))

  pub revoke_all_user_sessions-SameKey :
      (user_id : ℕ) (store : R.Store) → SameKey R j store (revoke_all_user_sessions R user_id store)
  unfolding revoke_all_user_sessions
  revoke_all_user_sessions-SameKey user_id store =
      del-SameKey R laws j _ store
        (any-session_keys-other j (R.smembers (user_sessions user_id) store) user_id other)

module _ (R : RedisClient) (laws : IsLawful R) where
  pub incr_with_ttl-SameKey :
      (j k : Key) (seconds : ℕ) (store : R.Store)
      → 0 < seconds
      → key_eq j k ≡ false
      → SameKey R j store (incr_with_ttl R k seconds store).1
  unfolding incr_with_ttl
  incr_with_ttl-SameKey j k seconds store pos h =
      let counted = (R.incr k store).1 in
      let one = incr-SameKey R laws j k store h in
      elim (Bool-cases ((R.incr k store).0 == 1)) [
        | inl t ↦ rw (t) (
            SameKey-trans R j store counted _ one (expire-SameKey R laws j k seconds counted pos h))
        | inr f ↦ rw (f) one
      ]

  pub incr_with_ttl-SameSessions :
      (k : Key) (seconds : ℕ) (store : R.Store)
      → 0 < seconds
      → IsApart k
      → SameSessions R store (incr_with_ttl R k seconds store).1
  unfolding incr_with_ttl
  incr_with_ttl-SameSessions k seconds store pos apart =
      let counted = (R.incr k store).1 in
      let one = incr-SameSessions R laws k store apart in
      elim (Bool-cases ((R.incr k store).0 == 1)) [
        | inl t ↦ rw (t) (
            SameSessions-trans R store counted _ one
              (expire-SameSessions R laws k seconds counted apart pos))
        | inr f ↦ rw (f) one
      ]

  pub record_unknown_login_failure-SameSessions :
      (email : String) (store : R.Store)
      → SameSessions R store (record_unknown_login_failure R email store)
  unfolding record_unknown_login_failure
  record_unknown_login_failure-SameSessions email store =
      incr_with_ttl-SameSessions (login_attempt_email email) 900 store (omega arith)
        ((λ i. refl), (λ u. refl))

  pub record_user_login_failure-SameSessions :
      (c : Setup) (user_id : ℕ) (email : String) (store : R.Store)
      → SameSessions R store (record_user_login_failure R c user_id email store)
  unfolding record_user_login_failure
  record_user_login_failure-SameSessions c user_id email store =
      let by_user = incr_with_ttl R (login_attempt_user user_id) login_attempt_seconds store in
      let by_email =
        (incr_with_ttl R (login_attempt_email email) login_attempt_seconds by_user.1).1 in
      let counted =
        SameSessions-trans R store by_user.1 by_email
          (incr_with_ttl-SameSessions (login_attempt_user user_id) 900 store (omega arith)
            ((λ i. refl), (λ u. refl)))
          (incr_with_ttl-SameSessions (login_attempt_email email) 900 by_user.1 (omega arith)
            ((λ i. refl), (λ u. refl))) in
      elim (Bool-cases (by_user.0 == c.max_login_failures)) [
        | inl t ↦ rw (t) (
            SameSessions-trans R store by_email _ counted
              (set-SameSessions R laws (user_lock user_id) _ _ by_email ((λ i. refl), (λ u. refl))))
        | inr f ↦ rw (f) counted
      ]

  pub clear_login_failure_counters-SameSessions :
      (user_id : ℕ) (email : String) (store : R.Store)
      → SameSessions R store (clear_login_failure_counters R user_id email store)
  unfolding clear_login_failure_counters
  clear_login_failure_counters-SameSessions user_id email store =
      del-SameSessions R laws _ store (λ i. refl) (λ u. refl)
