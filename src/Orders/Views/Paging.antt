-- ===== src/Orders/Views/Paging.antt =====
-- Pages of a list: `slice` of a page, and `buildPagination`.
use rental_be_nest.Prelude.{
  ℕ, zero, suc, ◌+◌, ◌-◌, ◌*◌, ◌/◌, ◌%◌, ◌≤◌, ◌<◌, ◌≡◌, refl, ap, sym, ◌∙◌, Option, none, some,
  List, [], ◌∷◌, ◌++◌, take, drop, length, ltb, if◌then◌else◌, arith,
}
use native.Mathlib.Nat.{div-add-mod', mod-lt}
use rental_be_nest.Orders.Pricing.{ceil_div}

pub record Pagination : Type 0 where
  pub page : ℕ
  pub per_page : ℕ
  pub total : ℕ
  pub count : ℕ
  pub total_page : ℕ
  pub prev_page : Option ℕ
  pub next_page : Option ℕ

abbrev pub at_least_one : ℕ → ℕ
at_least_one zero = 1
at_least_one (suc n) = suc n

-- A page has at least one row: the query's page size is positive.
unfoldable pub build_pagination : (page per_page total count : ℕ) → Pagination
build_pagination page per_page total count =
    let total_page = at_least_one (ceil_div total per_page) in
    record {
      page = page;
      per_page = per_page;
      total = total;
      count = count;
      total_page = total_page;
      prev_page = if ltb 1 page then some (page - 1) else none;
      next_page = if ltb page total_page then some (page + 1) else none;
    }

module _ {A : Type 0} where
  -- `xs.slice(start, start + perPage)`, `skip` and `take`
  unfoldable pub page_of : (page per_page : ℕ) → List A → List A
  page_of page per_page xs = take per_page (drop ((page - 1) * per_page) xs)

  -- The rows of the first pages, one page after the other.
  abbrev pub pages_up_to : (pages per_page : ℕ) → List A → List A
  pages_up_to zero per_page xs = []
  pages_up_to (suc n) per_page xs = pages_up_to n per_page xs ++ page_of (suc n) per_page xs

  take-nil : (n : ℕ) → take {A = A} n [] ≡ []
  take-nil zero = refl
  take-nil (suc n) = refl

  take-add : (m n : ℕ) (xs : List A) → take m xs ++ take n (drop m xs) ≡ take (m + n) xs
  take-add zero n xs = let e : n ≡ 0 + n = omega arith in ap (λ k. take k xs) e
  take-add (suc m) n [] = take-nil n ∙ sym (take-nil (suc m + n))
  take-add (suc m) n (x ∷ xs) =
      let e : suc (m + n) ≡ suc m + n = omega arith in
      ap (λ ys. x ∷ ys) (take-add m n xs) ∙ ap (λ k. take k (x ∷ xs)) e

  take-all : (n : ℕ) (xs : List A) → length xs ≤ n → take n xs ≡ xs
  take-all zero [] h = refl
  take-all zero (x ∷ xs) h = absurd (omega (arith, h))
  take-all (suc n) [] h = refl
  take-all (suc n) (x ∷ xs) h = ap (λ ys. x ∷ ys) (take-all n xs (omega (arith, h)))

  pages-take : (n per_page : ℕ) (xs : List A) → pages_up_to n per_page xs ≡ take (n * per_page) xs
  unfolding page_of
  pages-take zero per_page xs = let e : 0 ≡ 0 * per_page = omega arith in ap (λ k. take k xs) e
  pages-take (suc n) per_page xs =
      let same : suc n - 1 ≡ n = omega arith in
      let e : n * per_page + per_page ≡ suc n * per_page = omega arith in
      ap (λ k. pages_up_to n per_page xs ++ take per_page (drop (k * per_page) xs)) same
      ∙ ap (λ ys. ys ++ take per_page (drop (n * per_page) xs)) (pages-take n per_page xs)
      ∙ take-add (n * per_page) per_page xs
      ∙ ap (λ k. take k xs) e

at_least_one-le : (q m : ℕ) → q * m ≤ at_least_one q * m
at_least_one-le zero m = omega arith
at_least_one-le (suc q) m = omega arith

-- Pages enough for every row.
ceil_div-covers : (a b : ℕ) → 0 < b → a ≤ at_least_one (ceil_div a b) * b
ceil_div-covers a b h =
    let n = a + (b - 1) in
    let whole : n / b * b + n % b ≡ n = div-add-mod' n b in
    let rest : n % b < b = mod-lt n h in
    let enough : a ≤ n / b * b = omega (arith, whole, rest, h) in
    let more = at_least_one-le (n / b) b in omega (arith, enough, more)

module _ {A : Type 0} where
  -- The pages that the pagination counts show every row once, in order: for a positive page size, the
  -- slices of the pages from the first to the total number of pages make up the list.
  pub pages-cover :
      (page per_page count : ℕ) (xs : List A)
      → 0 < per_page
      → pages_up_to (build_pagination page per_page (length xs) count).total_page per_page xs ≡ xs
  unfolding build_pagination
  pages-cover page per_page count xs h =
      pages-take (at_least_one (ceil_div (length xs) per_page)) per_page xs
      ∙ take-all (at_least_one (ceil_div (length xs) per_page) * per_page) xs
          (ceil_div-covers (length xs) per_page h)
