-- ===== src/Auth/Attempts/Locking.antt =====
-- What one failed login leaves at the keys of its user.
use rental_be_nest.Prelude.{
  ℕ, ◌+◌, ◌≡◌, refl, ap, ◌∙◌, String, false, inl, inr, some, arith, ◌==◌, ==_iff, ==_refl,
  Bool-cases,
}
use rental_be_nest.Auth.Redis.{
  RedisClient, IsLawful, Key, plain, number, login_attempt_user, login_attempt_email, user_lock,
  count_at,
}
use rental_be_nest.Auth.Redis.SameKey.{set-SameKey}
use rental_be_nest.Auth.Setup.{Setup}
use rental_be_nest.Auth.Attempts.{incr_with_ttl, record_user_login_failure}
use rental_be_nest.Auth.Sessions.Others.{incr_with_ttl-SameKey}

module _ (R : RedisClient) (laws : IsLawful R) where
  incr_with_ttl-count :
      (k : Key) (n : ℕ) (store : R.Store)
      → count_at (R.get k store) ≡ some n
      → ((incr_with_ttl R k 900 store).0 ≡ n + 1)
        × (R.get k (incr_with_ttl R k 900 store).1 ≡ some (number (n + 1)))
  unfolding incr_with_ttl
  incr_with_ttl-count k n store counts =
      let (result, get) = laws.strings.incr_lem k store n counts in
      elim (Bool-cases ((R.incr k store).0 == 1)) [
        | inl t ↦ (
          result,
          rw (t) (laws.strings.get-expire k k 900 (R.incr k store).1 (omega arith) ∙ get),
        )
        | inr f ↦ (result, rw (f) get)
      ]

  module _ (c : Setup) (u : ℕ) (email : String) (n : ℕ) (store : R.Store)
      (counts : count_at (R.get (login_attempt_user u) store) ≡ some n) where
    abbrev by_user : R.Store
    by_user = (incr_with_ttl R (login_attempt_user u) 900 store).1

    abbrev by_email : R.Store
    by_email = (incr_with_ttl R (login_attempt_email email) 900 by_user).1

    at_limit :
        ((incr_with_ttl R (login_attempt_user u) 900 store).0 == c.max_login_failures)
        ≡ (n + 1 == c.max_login_failures)
    at_limit =
        ap (λ r. r == c.max_login_failures)
          (incr_with_ttl-count (login_attempt_user u) n store counts).0

    counted : R.get (login_attempt_user u) by_email ≡ some (number (n + 1))
    counted =
        (incr_with_ttl-SameKey R laws (login_attempt_user u) (login_attempt_email email) 900 by_user
          (omega arith) refl).get
        ∙ (incr_with_ttl-count (login_attempt_user u) n store counts).1

    -- The count has grown by one.
    pub record_user_login_failure-count :
        R.get (login_attempt_user u) (record_user_login_failure R c u email store)
        ≡ some (number (n + 1))
    unfolding record_user_login_failure
    record_user_login_failure-count = elim (Bool-cases (n + 1 == c.max_login_failures)) [
      | inl t ↦
          rw (at_limit, t)
            ((set-SameKey R laws (login_attempt_user u) (user_lock u) (plain "1") 900 by_email
                refl).get
              ∙ counted)
      | inr f ↦ rw (at_limit, f) counted
    ]

    -- At the limit, the user is locked.
    pub record_user_login_failure-lock :
        n + 1 ≡ c.max_login_failures
        → R.get (user_lock u) (record_user_login_failure R c u email store) ≡ some (plain "1")
    unfolding record_user_login_failure
    record_user_login_failure-lock h =
        let t = (==_iff (n + 1) c.max_login_failures).1 h in
        rw (at_limit, t)
          (laws.strings.get-set (user_lock u) (user_lock u) (plain "1") 900 by_email
            ∙ rw (==_refl u) refl)

    -- Before the limit, the lock is as it was.
    pub record_user_login_failure-unlocked :
        (n + 1 == c.max_login_failures) ≡ false
        → R.get (user_lock u) (record_user_login_failure R c u email store)
          ≡ R.get (user_lock u) store
    unfolding record_user_login_failure
    record_user_login_failure-unlocked f =
        rw (at_limit, f)
          ((incr_with_ttl-SameKey R laws (user_lock u) (login_attempt_email email) 900 by_user
              (omega arith) refl).get
            ∙ (incr_with_ttl-SameKey R laws (user_lock u) (login_attempt_user u) 900 store
                (omega arith) refl).get)
