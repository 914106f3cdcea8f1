-- ===== src/Store/Closures/Overlap.antt =====
-- When the closures let a rental pass, and what the operations do to it.
use rental_be_nest.Prelude.{
  ℕ, ◌≤◌, ◌<◌, ◌≡◌, refl, ◌↔◌, ◌⊎◌, inl, inr, true, false, none, some, List, [], ◌∷◌, map, arith,
  find, Bool-cases, if◌then◌else◌, ◌==◌, ==_iff, ◌or_else◌, subst, sym,
}
use rental_be_nest.Result.{ok, bind-ok, require-ok, or_fail-ok}
use rental_be_nest.Store.Closures.{
  StoreClosure, overlaps, assert_no_closure_overlap, is_none, CreateStoreClosure,
  create_store_closure, UpdateStoreClosure, update_store_closure, delete_store_closures,
  validate_closure_time, find_existing_store_closure, is_live_closure, patch_closure,
}

-- A rental and a closure share a moment, both read as half-open intervals.
abbrev pub IsApart : ℕ → ℕ → StoreClosure → Type 0
IsApart start_date end_date c = (end_date ≤ c.start_date) ⊎ (c.end_date ≤ start_date)

abbrev pub AllApart : ℕ → ℕ → List StoreClosure → Type 0
AllApart s e [] = Unit
AllApart s e (c ∷ cs) = (c.deleted_at ≡ none → IsApart s e c) × AllApart s e cs

apart_of_find :
    (s e : ℕ) (cs : List StoreClosure) → is_none (find (overlaps s e) cs) ≡ true → AllApart s e cs
apart_of_find s e [] h = tt
apart_of_find s e (c ∷ cs) h = (λ live. ground arith, apart_of_find s e cs (ground arith))

find_of_apart :
    (s e : ℕ) (cs : List StoreClosure) → AllApart s e cs → is_none (find (overlaps s e) cs) ≡ true
find_of_apart s e [] h = refl
find_of_apart s e (c ∷ cs) (h, hs) = ground (arith, find_of_apart s e cs hs, h)

-- A rental passes the check exactly when no closure in force shares a moment with it.
pub assert_no_closure_overlap_iff :
    (s e : ℕ) (cs : List StoreClosure)
    → (assert_no_closure_overlap s e cs ≡ ok tt) ↔ AllApart s e cs
unfolding assert_no_closure_overlap
assert_no_closure_overlap_iff s e cs =
    (λ h. apart_of_find s e cs (require-ok _ _ h), λ a. rw (find_of_apart s e cs a) refl)

-- Every closure in the table begins before it ends.
abbrev pub AllOrdered : List StoreClosure → Type 0
AllOrdered [] = Unit
AllOrdered (c ∷ cs) = (c.start_date < c.end_date) × AllOrdered cs

create_ordered :
    (id now : ℕ) (dto : CreateStoreClosure) (cs : List StoreClosure) {c : StoreClosure}
    {cs' : List StoreClosure}
    → create_store_closure id now dto cs ≡ ok (c, cs')
    → (c.start_date < c.end_date) × (cs' ≡ c ∷ cs)
unfolding create_store_closure
create_ordered id now dto cs e = (ground arith, ground arith)

-- A created closure keeps the table ordered; a request that ends no later than it begins is refused.
pub create-AllOrdered :
    (id now : ℕ) (dto : CreateStoreClosure) (cs : List StoreClosure) {c : StoreClosure}
    {cs' : List StoreClosure}
    → AllOrdered cs
    → create_store_closure id now dto cs ≡ ok (c, cs')
    → AllOrdered cs'
create-AllOrdered id now dto cs h e =
    let (ordered, same) = create_ordered id now dto cs e in rw same (ordered, h)

-- `id` is the table's primary key.
abbrev pub IsFresh : ℕ → List StoreClosure → Type 0
IsFresh id [] = Unit
IsFresh id (c ∷ cs) = ((c.id == id) ≡ false) × IsFresh id cs

abbrev pub HasKey : List StoreClosure → Type 0
HasKey [] = Unit
HasKey (c ∷ cs) = IsFresh c.id cs × HasKey cs

patch_all : ℕ → ℕ → UpdateStoreClosure → List StoreClosure → List StoreClosure
patch_all id now dto cs = map (λ c. if c.id == id then patch_closure now dto c else c) cs

patch_all_fresh :
    (id now : ℕ) (dto : UpdateStoreClosure) (cs : List StoreClosure)
    → IsFresh id cs
    → AllOrdered cs
    → AllOrdered (patch_all id now dto cs)
unfolding patch_all
patch_all_fresh id now dto [] f h = tt
patch_all_fresh id now dto (c ∷ cs) (f, fs) (h, hs) = rw f (h, patch_all_fresh id now dto cs fs hs)

find_fresh : (id : ℕ) (cs : List StoreClosure) → IsFresh id cs → find (is_live_closure id) cs ≡ none
find_fresh id [] f = refl
find_fresh id (c ∷ cs) (f, fs) = rw f (find_fresh id cs fs)

patch_all-AllOrdered :
    (id now : ℕ) (dto : UpdateStoreClosure) (cs : List StoreClosure) {c : StoreClosure}
    → HasKey cs
    → AllOrdered cs
    → find (is_live_closure id) cs ≡ some c
    → (dto.start_date or_else c.start_date) < (dto.end_date or_else c.end_date)
    → AllOrdered (patch_all id now dto cs)
unfolding patch_all
patch_all-AllOrdered id now dto [] k h e lt = tt
patch_all-AllOrdered id now dto (x ∷ cs) {c} (f, k) (h, hs) e lt = elim (Bool-cases (x.id == id)) [
  | inl same ↦
      let fresh : IsFresh id cs = subst (λ n. IsFresh n cs) ((==_iff x.id id).0 same) f in
      let here : x ≡ c = ground (arith, find_fresh id cs fresh) in
      rw same (
        subst
            (λ (y : StoreClosure).
              (dto.start_date or_else y.start_date) < (dto.end_date or_else y.end_date))
            (sym here) lt,
        patch_all_fresh id now dto cs fresh hs,
      )
  | inr other ↦ rw other (h, patch_all-AllOrdered id now dto cs {c = c} k hs (ground arith) lt)
]

-- So does an update, which takes what the request leaves out from the row in force.
pub update-AllOrdered :
    (id now : ℕ) (dto : UpdateStoreClosure) (cs : List StoreClosure) {cs' : List StoreClosure}
    → HasKey cs
    → AllOrdered cs
    → update_store_closure id now dto cs ≡ ok cs'
    → AllOrdered cs'
unfolding update_store_closure patch_all
update-AllOrdered id now dto cs {cs'} k h e =
    let (c, found, e1) = bind-ok (find_existing_store_closure id cs) _ e in
    let first = dto.start_date or_else c.start_date in
    let last = dto.end_date or_else c.end_date in
    let (u, ordered, e2) = bind-ok (validate_closure_time first last) _ e1 in
    let there : find (is_live_closure id) cs ≡ some c = or_fail-ok _ _ found in
    let lt : (dto.start_date or_else c.start_date) < (dto.end_date or_else c.end_date) =
      ground arith in
    let same : patch_all id now dto cs ≡ cs' = ground arith in
    rw same at (patch_all-AllOrdered id now dto cs {c = c} k h there lt)

-- Deleting closures keeps a period that no closure in force meets free of them.
pub delete-AllApart :
    (now : ℕ) (ids : List ℕ) (s e : ℕ) (cs : List StoreClosure)
    → AllApart s e cs
    → AllApart s e (delete_store_closures now ids cs)
unfolding delete_store_closures
delete-AllApart now ids s e [] h = tt
delete-AllApart now ids s e (c ∷ cs) (h, hs) =
    (λ live. ground arith, delete-AllApart now ids s e cs hs)
