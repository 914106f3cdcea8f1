-- ===== src/Inventory/Rows.antt =====
-- Tables in which a text is unique, and the checks that keep it so.
use text.Mathlib.TextEquality.{eq_iff}
use rental_be_nest.Prelude.{
  is_some_eq, Option, subst, ℕ, ◌≡◌, ◌≢◌, refl, sym, ap, ◌∙◌, String, true, false, not, ◌&&◌, ◌⊎◌,
  inl, inr, none, some, List, [], ◌∷◌, map, any, find, Memᴰ, Memᴰ-map, Memᴰ-find, any-Memᴰ, arith,
  str_eq, ==_iff, Bool-cases, Option-cases, ◌==◌,
}
use rental_be_nest.Result.{ok, Error, require-ok}
use rental_be_nest.Inventory.Requests.{refuse_other, ensure_available, check_unique}

module _ {A : Type 0} (id_of : A → ℕ) (text_of : A → String) where
  -- Rows with one text are one row, as far as ids tell.
  abbrev pub IsUnique : List A → Type 0
  IsUnique rows = (a b : A) → Memᴰ a rows → Memᴰ b rows → text_of a ≡ text_of b → id_of a ≡ id_of b

  -- Every row with the text has the id, and without an id no row has the text.
  abbrev pub IsOwned : String → Option ℕ → List A → Type 0
  IsOwned text own rows = (a : A) → Memᴰ a rows → text_of a ≡ text → is_some_eq own (id_of a) ≡ true

  pub check_unique-IsOwned :
      (text : String) (own : Option ℕ) (rows : List A) {r : Unit {0}}
      → check_unique id_of text_of text own rows ≡ ok r
      → IsOwned text own rows
  unfolding check_unique
  check_unique-IsOwned text own rows h a m same = elim (Bool-cases (is_some_eq own (id_of a))) [
    | inl t ↦ t
    | inr f ↦
        let has : str_eq (text_of a) text ≡ true = (eq_iff (text_of a) text).1 same in
        let taken =
          any-Memᴰ (λ r. str_eq (text_of r) text && not (is_some_eq own (id_of r))) rows m
            (rw (has, f) refl) in
        absurd (ground (arith, h, taken))
  ]

  pub IsOwned-check_unique :
      (text : String) (own : Option ℕ) (rows : List A)
      → IsOwned text own rows
      → check_unique id_of text_of text own rows ≡ ok tt
  unfolding check_unique
  IsOwned-check_unique text own rows h = rw (none_taken rows h) refl
    where
      none_taken :
          (rows : List A)
          → IsOwned text own rows
          → any (λ r. str_eq (text_of r) text && not (is_some_eq own (id_of r))) rows ≡ false
      none_taken [] h = refl
      none_taken (a ∷ rows) h =
          let rest = none_taken rows (λ b m. h b (Memᴰ.tail m)) in
          elim (Bool-cases (str_eq (text_of a) text)) [
            | inr f ↦ rw (f) rest
            | inl t ↦
                let same = h a (Memᴰ.head refl) ((eq_iff (text_of a) text).0 t) in rw (t, same) rest
          ]

  missed :
      (text : String) (rows : List A) {a : A}
      → Memᴰ a rows
      → text_of a ≡ text
      → find (λ r. str_eq (text_of r) text) rows ≢ none
  missed text [] m same h = elim m [ ]
  missed text (b ∷ rows) (Memᴰ.head e) same h =
      let has : str_eq (text_of b) text ≡ true =
        (eq_iff (text_of b) text).1 (ap text_of (sym e) ∙ same) in
      absurd (ground (arith, h, has))
  missed text (b ∷ rows) (Memᴰ.tail m) same h = elim (Bool-cases (str_eq (text_of b) text)) [
    | inl t ↦ absurd (ground (arith, h, t))
    | inr f ↦ missed text rows m same (ground (arith, h, f))
  ]

  -- What the check of the service shows: the row that is left out is the only one with the text.
  pub ensure_available-IsOwned :
      (e : Error) (text : String) (id : ℕ) (rows : List A) {r : Unit {0}}
      → IsUnique rows
      → ensure_available id_of text_of e text (some id) rows ≡ ok r
      → IsOwned text (some id) rows
  unfolding ensure_available
  ensure_available-IsOwned e text id rows unique h a m same =
      elim (Option-cases (find (λ r. str_eq (text_of r) text) rows)) [
        | inl missing ↦ absurd (missed text rows m same missing)
        | inr (row, found) ↦
            let (there, has) = Memᴰ-find (λ r. str_eq (text_of r) text) rows found in
            let allowed =
              require-ok (id == id_of row) e
                (ap (refuse_other id_of text_of e (some id)) (sym found) ∙ h) in
            let one = unique a row m there (same ∙ sym ((eq_iff (text_of row) text).0 has)) in
            subst (λ n. (id == n) ≡ true) (sym one) allowed
      ]

  -- With no row left out, no row has the text.
  pub ensure_available-none :
      (e : Error) (text : String) (rows : List A) {r : Unit {0}}
      → ensure_available id_of text_of e text none rows ≡ ok r
      → IsOwned text none rows
  unfolding ensure_available
  ensure_available-none e text rows h a m same =
      elim (Option-cases (find (λ r. str_eq (text_of r) text) rows)) [
        | inl missing ↦ absurd (missed text rows m same missing)
        | inr (row, found) ↦ absurd (cc (ap (refuse_other id_of text_of e none) (sym found) ∙ h))
      ]

  pub IsUnique-IsOwned :
      (rows : List A) (a : A)
      → IsUnique rows
      → Memᴰ a rows
      → IsOwned (text_of a) (some (id_of a)) rows
  IsUnique-IsOwned rows a unique m b k same =
      (==_iff (id_of a) (id_of b)).1 (unique a b m k (sym same))

  -- A new row keeps the texts unique when no other row has its text.
  pub insert-IsUnique :
      (row : A) (rows : List A)
      → IsUnique rows
      → IsOwned (text_of row) none rows
      → IsUnique (row ∷ rows)
  insert-IsUnique row rows unique own a b (Memᴰ.head e) (Memᴰ.head k) same = ap id_of (e ∙ sym k)
  insert-IsUnique row rows unique own a b (Memᴰ.head e) (Memᴰ.tail k) same =
      absurd (cc (own b k (sym same ∙ ap text_of e)))
  insert-IsUnique row rows unique own a b (Memᴰ.tail m) (Memᴰ.head k) same =
      absurd (cc (own a m (same ∙ ap text_of k)))
  insert-IsUnique row rows unique own a b (Memᴰ.tail m) (Memᴰ.tail k) same = unique a b m k same

  -- A write that gives rows a text which only `id` may have, or leaves a row's id and text.
  abbrev pub Rewrites : String → ℕ → A → A → Type 0
  Rewrites text id old new =
      (id_of new ≡ id_of old)
      × ((text_of new ≡ text_of old) ⊎ ((text_of new ≡ text) × (id_of old ≡ id)))

  pub map-IsUnique :
      (text : String) (id : ℕ) (f : A → A) (rows : List A)
      → ((a : A) → Rewrites text id a (f a))
      → IsOwned text (some id) rows
      → IsUnique rows
      → IsUnique (map f rows)
  map-IsUnique text id f rows write own unique a b m k same =
      let (old_a, ma, ea) = Memᴰ-map f rows m in
      let (old_b, mb, eb) = Memᴰ-map f rows k in
      let (ia, ta) = write old_a in
      let (ib, tb) = write old_b in
      let eq = sym (ap text_of ea) ∙ same ∙ ap text_of eb in
      let olds : id_of old_a ≡ id_of old_b = elim ta [
        | inl keeps_a ↦ elim tb [
          | inl keeps_b ↦ unique old_a old_b ma mb (sym keeps_a ∙ eq ∙ keeps_b)
          | inr (new_b, is_b) ↦
              sym ((==_iff id (id_of old_a)).0 (own old_a ma (sym keeps_a ∙ eq ∙ new_b))) ∙ sym is_b
        ]
        | inr (new_a, is_a) ↦ elim tb [
          | inl keeps_b ↦
              is_a ∙ (==_iff id (id_of old_b)).0 (own old_b mb (sym keeps_b ∙ sym eq ∙ new_a))
          | inr (new_b, is_b) ↦ is_a ∙ sym is_b
        ]
      ] in
      ap id_of ea ∙ ia ∙ olds ∙ sym (ap id_of eb ∙ ib)

  -- A write that keeps every row's id and text.
  pub same-IsUnique :
      (f : A → A) (rows : List A)
      → ((a : A) → (id_of (f a) ≡ id_of a) × (text_of (f a) ≡ text_of a))
      → IsUnique rows
      → IsUnique (map f rows)
  same-IsUnique f rows keeps unique a b m k same =
      let (old_a, ma, ea) = Memᴰ-map f rows m in
      let (old_b, mb, eb) = Memᴰ-map f rows k in
      let (ia, ta) = keeps old_a in
      let (ib, tb) = keeps old_b in
      ap id_of ea
      ∙ ia
      ∙ unique old_a old_b ma mb (sym ta ∙ sym (ap text_of ea) ∙ same ∙ ap text_of eb ∙ tb)
      ∙ sym (ap id_of eb ∙ ib)
