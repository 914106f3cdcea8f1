-- ===== src/Auth/Attempts/Guarded.antt =====
-- The count of a user's failed logins stays below the limit as long as the user is not locked, and
-- the lock expires no earlier than the count.
use rental_be_nest.Prelude.{
  ℕ, ◌<◌, ◌≤◌, ◌-◌, ◌≡◌, refl, sym, ap, ◌∙◌, String, true, ◌⊎◌, inl, inr, some, [], ◌∷◌, arith, ltb,
  ltb→lt, lt→ltb, Bool-cases, ◌==◌,
}
use rental_be_nest.Auth.Redis.{
  RedisClient, IsLawful, Value, number, login_attempt_user, login_attempt_email, user_lock,
  outlives, time_left,
}
use rental_be_nest.Auth.Redis.SameKey.{SameKey, del-SameKey}
use rental_be_nest.Auth.Setup.{Setup, auth_lock_seconds}
use rental_be_nest.Auth.Attempts.{clear_login_failure_counters}

module _ (R : RedisClient) (c : Setup) where
  -- The user is locked for at least as long as the count lasts.
  pub record IsLocked (store : R.Store) (u left : ℕ) : Type 0 where
    pub value : Value
    pub present : R.get (user_lock u) store ≡ some value
    pub lock_left : ℕ
    pub lock_expires : R.ttl (user_lock u) store ≡ some lock_left
    pub outlived : left ≤ lock_left

  pub record IsCounted (store : R.Store) (u : ℕ) (v : Value) : Type 0 where
    pub failures : ℕ
    pub is_number : v ≡ number failures
    pub left : ℕ
    pub expires : R.ttl (login_attempt_user u) store ≡ some left
    pub bounded : left ≤ auth_lock_seconds
    pub limited : (failures < c.max_login_failures) ⊎ IsLocked store u left

  abbrev pub IsGuarded : R.Store → Type 0
  IsGuarded store =
      (u : ℕ) (v : Value) → R.get (login_attempt_user u) store ≡ some v → IsCounted store u v

  -- The keys of one user are as they were.
  abbrev pub SameUser : ℕ → R.Store → R.Store → Type 0
  SameUser u store store' =
      SameKey R (login_attempt_user u) store store' × SameKey R (user_lock u) store store'

  pub SameUser-IsCounted :
      (u : ℕ) (store store' : R.Store) (v : Value)
      → SameUser u store store'
      → IsCounted store u v
      → IsCounted store' u v
  SameUser-IsCounted u store store' v (attempts, lock) n = record {
    failures = n.failures;
    is_number = n.is_number;
    left = n.left;
    expires = attempts.ttl ∙ n.expires;
    bounded = n.bounded;
    limited = elim n.limited [
      | inl few ↦ inl few
      | inr l ↦ inr (record {
        value = l.value;
        present = lock.get ∙ l.present;
        lock_left = l.lock_left;
        lock_expires = lock.ttl ∙ l.lock_expires;
        outlived = l.outlived;
      })
    ];
  }

  pub SameUser-IsGuarded :
      (store store' : R.Store)
      → ((u : ℕ) → SameUser u store store')
      → IsGuarded store
      → IsGuarded store'
  SameUser-IsGuarded store store' same h u v found =
      SameUser-IsCounted u store store' v (same u) (h u v (sym (same u).0.get ∙ found))

module _ (R : RedisClient) (laws : IsLawful R) (c : Setup) where
  pub clear_login_failure_counters-IsGuarded :
      (user_id : ℕ) (email : String) (store : R.Store)
      → IsGuarded R c store
      → IsGuarded R c (clear_login_failure_counters R user_id email store)
  unfolding clear_login_failure_counters
  clear_login_failure_counters-IsGuarded user_id email store h u v found =
      let ks = login_attempt_user user_id ∷ login_attempt_email email ∷ [] in
      let seen = sym found ∙ laws.strings.get-del (login_attempt_user u) ks store in
      elim (Bool-cases (u == user_id)) [
        | inl t ↦ absurd (ground (arith, seen, t))
        | inr f ↦
            let same : SameUser R c u store (R.del ks store) = (
              del-SameKey R laws (login_attempt_user u) ks store (rw (f) refl),
              del-SameKey R laws (user_lock u) ks store refl,
            ) in
            SameUser-IsCounted R c u store _ v same (h u v (sym same.0.get ∙ found))
      ]

  pub later-IsGuarded :
      (t : ℕ) (store : R.Store) → IsGuarded R c store → IsGuarded R c (R.later t store)
  later-IsGuarded t store h u v found =
      let seen = sym found ∙ laws.strings.get-later (login_attempt_user u) t store in
      elim (Bool-cases (outlives t (R.ttl (login_attempt_user u) store))) [
        | inr f ↦ absurd (ground (arith, seen, f))
        | inl alive ↦
            let n = h u v (sym (seen ∙ rw (alive) refl)) in
            let in_time : ltb t n.left ≡ true = sym (ap (outlives t) n.expires) ∙ alive in
            record {
              failures = n.failures;
              is_number = n.is_number;
              left = n.left - t;
              expires =
                  laws.times.ttl-later (login_attempt_user u) t store alive
                  ∙ ap (time_left t) n.expires;
              bounded = omega (arith, n.bounded);
              limited = elim n.limited [
                | inl few ↦ inl few
                | inr l ↦
                    let lock_alive : outlives t (R.ttl (user_lock u) store) ≡ true =
                      ap (outlives t) l.lock_expires
                      ∙ lt→ltb t l.lock_left (omega (arith, ltb→lt t n.left in_time, l.outlived)) in
                    inr (record {
                      value = l.value;
                      present =
                          laws.strings.get-later (user_lock u) t store ∙ rw (lock_alive) l.present;
                      lock_left = l.lock_left - t;
                      lock_expires =
                          laws.times.ttl-later (user_lock u) t store lock_alive
                          ∙ ap (time_left t) l.lock_expires;
                      outlived = omega (arith, l.outlived);
                    })
              ];
            }
      ]
