-- ===== src/Exec.antt =====
-- Service methods that await the database, Redis or a socket: actions on a state that return or
-- throw. What was written before a throw stays written, so the state comes back beside the error.
use rental_be_nest.Prelude.{◌≡◌, ◌≢◌, refl, ap}
use rental_be_nest.Result.{Result, ok, err, Error, err-injective}

abbrev pub Exec {ℓ} : Type ℓ → Type ℓ → Type ℓ
Exec S A = S → Result A × S

module _ {ℓ} {S A : Type ℓ} where
  unfoldable pub pure : A → Exec S A
  pure a s = (ok a, s)

  -- A step that reads the state, and may throw.
  unfoldable pub reads : (S → Result A) → Exec S A
  reads f s = (f s, s)

  unfoldable pub lift : Result A → Exec S A
  lift r s = (r, s)

module _ {ℓ} {S : Type ℓ} where
  unfoldable pub modify : (S → S) → Exec S (Unit {ℓ})
  modify f s = (ok tt, f s)

module _ {ℓ} {S A B : Type ℓ} where
  abbrev pub continue : Result A → (A → Exec S B) → Exec S B
  continue (ok a) f s = f a s
  continue (err e) f s = (err e, s)

  infixl 5 ◌>>=◌ ◌>>◌
  -- Opening this opens `pure`, `reads`, `lift` and `modify` too.
  unfoldable pub ◌>>=◌ : Exec S A → (A → Exec S B) → Exec S B
  unfolding pure reads lift modify
  ◌>>=◌ m f s = continue (m s).0 f (m s).1

  abbrev pub ◌>>◌ : Exec S A → Exec S B → Exec S B
  m >> n = m >>= λ _. n

  -- An action that returns has passed through each of its steps.
  pub bind-ok :
      (m : Exec S A) (f : A → Exec S B) (s : S) {b : B}
      → ((m >>= f) s).0 ≡ ok b
      → (a : A) × ((m s).0 ≡ ok a) × ((f a (m s).1).0 ≡ ok b) × (((m >>= f) s).1 ≡ (f a (m s).1).1)
  unfolding ◌>>=◌
  bind-ok m f s {b} h = go (m s).0 h
    where
      go :
          (r : Result A)
          → (continue r f (m s).1).0 ≡ ok b
          → (a : A) × (r ≡ ok a)
            × ((f a (m s).1).0 ≡ ok b)
            × ((continue r f (m s).1).1 ≡ (f a (m s).1).1)
      go (ok a) e = (a, refl, e, refl)
      go (err x) e = cc

module _ {ℓ} {S A B : Type ℓ} where
  -- A step that only reads leaves the state to the rest.
  pub reads-ok :
      (r : S → Result A) (f : A → Exec S B) (s : S) {b : B}
      → ((reads r >>= f) s).0 ≡ ok b
      → (a : A) × (r s ≡ ok a) × ((f a s).0 ≡ ok b) × (((reads r >>= f) s).1 ≡ (f a s).1)
  unfolding ◌>>=◌
  reads-ok r f s h = bind-ok (reads r) f s h

  pub lift-ok :
      (r : Result A) (f : A → Exec S B) (s : S) {b : B}
      → ((lift r >>= f) s).0 ≡ ok b
      → (a : A) × (r ≡ ok a) × ((f a s).0 ≡ ok b) × (((lift r >>= f) s).1 ≡ (f a s).1)
  unfolding ◌>>=◌
  lift-ok r f s h = bind-ok (lift r) f s h

module _ {ℓ} {S A B : Type ℓ} where
  -- What holds after each way that a sequence ends: the first step throws, or it returns and the
  -- rest runs.
  pub bind_keeps :
      (P : S → Type ℓ) (m : Exec S A) (f : A → Exec S B) (s : S)
      → P (m s).1
      → ((a : A) → (m s).0 ≡ ok a → P (f a (m s).1).1)
      → P ((m >>= f) s).1
  unfolding ◌>>=◌
  bind_keeps P m f s h k = go (m s).0 k
    where
      go : (r : Result A) → ((a : A) → r ≡ ok a → P (f a (m s).1).1) → P (continue r f (m s).1).1
      go (ok a) k = k a refl
      go (err e) k = h

module _ {ℓ} {S A B : Type ℓ} where
  -- A read that cannot throw, and a write, pass for sure.
  pub get-ok :
      (g : S → A) (f : A → Exec S B) (s : S) {b : B}
      → ((reads (λ s. ok (g s)) >>= f) s).0 ≡ ok b
      → ((f (g s) s).0 ≡ ok b) × (((reads (λ s. ok (g s)) >>= f) s).1 ≡ (f (g s) s).1)
  unfolding ◌>>=◌
  get-ok g f s h = (h, refl)

module _ {ℓ} {S B : Type ℓ} where
  pub modify-ok :
      (g : S → S) (f : Unit {ℓ} → Exec S B) (s : S) {b : B}
      → ((modify g >>= f) s).0 ≡ ok b
      → ((f tt (g s)).0 ≡ ok b) × (((modify g >>= f) s).1 ≡ (f tt (g s)).1)
  unfolding ◌>>=◌
  modify-ok g f s h = (h, refl)

-- A call that throws leaves the state as it was.
abbrev pub IsAtomic {ℓ} : {S A : Type ℓ} → Exec S A → Type ℓ
IsAtomic {S = S} m = (s : S) (e : Error) → (m s).0 ≡ err e → (m s).1 ≡ s

module _ {ℓ} {S A B : Type ℓ} where
  pub reads-IsAtomic :
      (r : S → Result A) (f : A → Exec S B) → ((a : A) → IsAtomic (f a)) → IsAtomic (reads r >>= f)
  unfolding ◌>>=◌
  reads-IsAtomic r f k s e h = go (r s) h
    where
      go : (o : Result A) → (continue o f s).0 ≡ err e → (continue o f s).1 ≡ s
      go (ok a) t = k a s e t
      go (err x) t = refl

  pub lift-IsAtomic :
      (r : Result A) (f : A → Exec S B) → ((a : A) → IsAtomic (f a)) → IsAtomic (lift r >>= f)
  unfolding ◌>>=◌
  lift-IsAtomic r f k s e h = reads-IsAtomic (λ s. r) f k s e h

  -- A sequence does not throw an error when its first step does not, nor the rest where it returns.
  pub bind_avoids :
      (bad : Error) (m : Exec S A) (f : A → Exec S B) (s : S)
      → (m s).0 ≢ err bad
      → ((a : A) → (m s).0 ≡ ok a → (f a (m s).1).0 ≢ err bad)
      → ((m >>= f) s).0 ≢ err bad
  unfolding ◌>>=◌
  bind_avoids bad m f s h k = go (m s).0 h k
    where
      go :
          (r : Result A)
          → r ≢ err bad
          → ((a : A) → r ≡ ok a → (f a (m s).1).0 ≢ err bad)
          → (continue r f (m s).1).0 ≢ err bad
      go (ok a) h k t = k a refl t
      go (err x) h k t = h (ap err (err-injective t))

module _ {ℓ} {S A B : Type ℓ} where
  -- What holds of the value that a sequence returns and of the state that it leaves.
  pub bind_returns :
      (P : B → S → Type ℓ) (m : Exec S A) (f : A → Exec S B) (s : S)
      → ((a : A) → (m s).0 ≡ ok a → (b : B) → (f a (m s).1).0 ≡ ok b → P b (f a (m s).1).1)
      → (b : B) → ((m >>= f) s).0 ≡ ok b
      → P b ((m >>= f) s).1
  unfolding ◌>>=◌
  bind_returns P m f s k b h = go (m s).0 k h
    where
      go :
          (r : Result A)
          → ((a : A) → r ≡ ok a → (b : B) → (f a (m s).1).0 ≡ ok b → P b (f a (m s).1).1)
          → (continue r f (m s).1).0 ≡ ok b
          → P b (continue r f (m s).1).1
      go (ok a) k h = k a refl b h
      go (err e) k h = absurd (cc h)
