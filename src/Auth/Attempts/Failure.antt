-- ===== src/Auth/Attempts/Failure.antt =====
-- A failed login counts by one, and locks the user at the limit.
use rental_be_nest.Prelude.{
  ℕ, ◌+◌, ◌<◌, ◌≤◌, ◌≡◌, ◌≢◌, refl, sym, ap, ◌∙◌, subst, String, false, ◌⊎◌, inl, inr, none, some,
  arith, ==_iff, ==_refl, Bool-cases, Option-cases, ◌==◌,
}
use rental_be_nest.Auth.Redis.{
  RedisClient, IsLawful, Key, Value, plain, number, login_attempt_user, login_attempt_email,
  user_lock, count_at,
}
use rental_be_nest.Auth.Redis.SameKey.{SameKey, SameKey-trans, set-SameKey}
use rental_be_nest.Auth.Setup.{Setup}
use rental_be_nest.Auth.Attempts.{incr_with_ttl, record_user_login_failure}
use rental_be_nest.Auth.Attempts.Guarded.{
  IsLocked, IsCounted, IsGuarded, SameUser, SameUser-IsCounted,
}
use rental_be_nest.Auth.Sessions.Others.{incr_with_ttl-SameKey}

module _ (R : RedisClient) (laws : IsLawful R) where
  -- What `incrWithTTL` leaves at its key.
  record IsIncremented (k : Key) (n : ℕ) (store : R.Store) : Type 0 where
    result : (incr_with_ttl R k 900 store).0 ≡ n + 1
    get : R.get k (incr_with_ttl R k 900 store).1 ≡ some (number (n + 1))
    left : ℕ
    expires : R.ttl k (incr_with_ttl R k 900 store).1 ≡ some left
    bounded : left ≤ 900

  incremented :
      (k : Key) (n : ℕ) (store : R.Store)
      → count_at (R.get k store) ≡ some n
      → ((n ≢ 0) → (left : ℕ) × (R.ttl k (R.incr k store).1 ≡ some left) × (left ≤ 900))
      → IsIncremented k n store
  unfolding incr_with_ttl
  incremented k n store counts old =
      let (result, get) = laws.strings.incr_lem k store n counts in
      let counted = (R.incr k store).1 in
      elim (Bool-cases ((R.incr k store).0 == 1)) [
        | inl t ↦ record {
          result = result;
          get = rw (t) (laws.strings.get-expire k k 900 counted (omega arith) ∙ get);
          left = 900;
          expires = rw (t) (laws.times.ttl-expire_text k 900 counted (number (n + 1)) get);
          bounded = omega arith;
        }
        | inr f ↦
            let (left, expires, bounded) =
              old (λ e. cc (sym f ∙ (==_iff _ 1).1 (result ∙ omega (arith, e)))) in
            record {
              result = result;
              get = rw (f) get;
              left = left;
              expires = rw (f) expires;
              bounded = bounded;
            }
      ]

  module _ (c : Setup) (allows : 0 < c.max_login_failures) where
    -- The count of a user who is not locked.
    unlocked_count :
        (u : ℕ) (store : R.Store)
        → R.get (user_lock u) store ≡ none
        → IsGuarded R c store
        → (n : ℕ) × IsIncremented (login_attempt_user u) n store
          × (n < c.max_login_failures)
          × (count_at (R.get (login_attempt_user u) store) ≡ some n)
    unlocked_count u store unlocked h =
        let k = login_attempt_user u in
        elim (Option-cases (R.get k store)) [
          | inl missing ↦
              let counts : count_at (R.get k store) ≡ some 0 = rw (missing) refl in
              (0, incremented k 0 store counts (λ e. absurd (e refl)), allows, counts)
          | inr (v, found) ↦
              let e = h u v found in
              let counts : count_at (R.get k store) ≡ some e.failures =
                rw (found) (ap (λ v. count_at (some v)) e.is_number) in
              let few : e.failures < c.max_login_failures = elim e.limited [
                | inl few ↦ few
                | inr l ↦ absurd (cc (l.present, unlocked))
              ] in
              (
                e.failures,
                incremented k e.failures store counts (λ _.
                    (e.left, laws.times.ttl-incr_again k store v found ∙ e.expires, e.bounded)),
                few,
                counts,
              )
        ]

    module _ (u : ℕ) (email : String) (store : R.Store) where
      abbrev by_user : R.Store
      by_user = (incr_with_ttl R (login_attempt_user u) 900 store).1

      abbrev by_email : R.Store
      by_email = (incr_with_ttl R (login_attempt_email email) 900 by_user).1

      -- The key of the user's own count, and its lock, after the count.
      own_count_after :
          (n : ℕ)
          → IsIncremented (login_attempt_user u) n store
          → (after : R.Store) → SameKey R (login_attempt_user u) by_user after
          → (n + 1 < c.max_login_failures) ⊎ ((left : ℕ) → left ≤ 900 → IsLocked R c after u left)
          → (v : Value) → R.get (login_attempt_user u) after ≡ some v
          → IsCounted R c after u v
      own_count_after n i after same limited v found = record {
        failures = n + 1;
        is_number = cc (found, same.get, i.get);
        left = i.left;
        expires = same.ttl ∙ i.expires;
        bounded = i.bounded;
        limited = elim limited [ inl few ↦ inl few | inr l ↦ inr (l i.left i.bounded) ];
      }

      others :
          (v : ℕ)
          → (v == u) ≡ false
          → SameUser R c v store (record_user_login_failure R c u email store)
      unfolding record_user_login_failure
      others v f =
          let attempts =
            SameKey-trans R (login_attempt_user v) store by_user by_email
              (incr_with_ttl-SameKey R laws (login_attempt_user v) (login_attempt_user u) 900 store
                (omega arith) f)
              (incr_with_ttl-SameKey R laws (login_attempt_user v) (login_attempt_email email) 900
                by_user (omega arith) refl) in
          let locks =
            SameKey-trans R (user_lock v) store by_user by_email
              (incr_with_ttl-SameKey R laws (user_lock v) (login_attempt_user u) 900 store
                (omega arith) refl)
              (incr_with_ttl-SameKey R laws (user_lock v) (login_attempt_email email) 900 by_user
                (omega arith) refl) in
          elim (Bool-cases
            ((incr_with_ttl R (login_attempt_user u) 900 store).0 == c.max_login_failures)) [
              | inl t ↦ rw (t) (
                SameKey-trans R (login_attempt_user v) store by_email _ attempts
                    (set-SameKey R laws (login_attempt_user v) _ _ _ by_email refl),
                SameKey-trans R (user_lock v) store by_email _ locks
                    (set-SameKey R laws (user_lock v) _ _ _ by_email f),
              )
              | inr o ↦ rw (o) (attempts, locks)
            ]

      same_count : SameKey R (login_attempt_user u) by_user by_email
      same_count =
          incr_with_ttl-SameKey R laws (login_attempt_user u) (login_attempt_email email) 900
            by_user (omega arith) refl

      own :
          (n : ℕ)
          → IsIncremented (login_attempt_user u) n store
          → n < c.max_login_failures
          → (v : Value)
          → R.get (login_attempt_user u) (record_user_login_failure R c u email store) ≡ some v
          → IsCounted R c (record_user_login_failure R c u email store) u v
      unfolding record_user_login_failure
      own n i few =
          elim (Bool-cases
            ((incr_with_ttl R (login_attempt_user u) 900 store).0 == c.max_login_failures)) [
              | inl t ↦ rw (t) (
                  own_count_after n i _
                    (SameKey-trans R (login_attempt_user u) by_user by_email _ same_count (
                      set-SameKey R laws (login_attempt_user u) (user_lock u) (plain "1") 900
                        by_email refl))
                    (inr (λ left b. record {
                      value = plain "1";
                      present =
                          laws.strings.get-set (user_lock u) (user_lock u) (plain "1") 900 by_email
                          ∙ rw (==_refl u) refl;
                      lock_left = 900;
                      lock_expires =
                          laws.times.ttl-set (user_lock u) (user_lock u) (plain "1") 900 by_email
                          ∙ rw (==_refl u) refl;
                      outlived = b;
                    })))
              | inr o ↦
                  let below : n + 1 < c.max_login_failures = ground (arith, i.result, o, few) in
                  rw (o) (own_count_after n i by_email same_count (inl below))
            ]

      pub record_user_login_failure-IsGuarded :
          R.get (user_lock u) store ≡ none
          → IsGuarded R c store
          → IsGuarded R c (record_user_login_failure R c u email store)
      record_user_login_failure-IsGuarded unlocked h v value found =
          let (n, i, few, _) = unlocked_count u store unlocked h in
          elim (Bool-cases (v == u)) [
            | inl t ↦
                let is_u = (==_iff v u).0 t in
                subst (λ v. IsCounted R c (record_user_login_failure R c u email store) v value)
                  (sym is_u)
                  (own n i few value (
                    subst
                      (λ v.
                        R.get (login_attempt_user v) (record_user_login_failure R c u email store)
                        ≡ some value)
                      is_u found))
            | inr f ↦
                let same = others v f in
                SameUser-IsCounted R c v store _ value same (h v value (sym same.0.get ∙ found))
          ]
