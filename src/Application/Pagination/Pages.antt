-- ===== src/Application/Pagination/Pages.antt =====
-- The pages of a list.
use python_commons.Base.{
  ℕ, zero, suc, ◌+◌, ◌-◌, ◌*◌, ◌/◌, ◌≤◌, ◌<◌, ◌≡◌, ◌↔◌, refl, sym, ap, ◌∙◌, subst, true, List, [],
  ◌∷◌, ◌++◌, length, take, drop, arith, length-take,
}
use native.Mathlib.Nat.{div-eq_of_lt, lt-div-mul-add, le-div_iff_mul-le}
use python_commons.Application.Pagination.{
  PageRequest, offset, Page, total_pages, has_next, slice, of,
}

last_page : (page size : ℕ) → 0 < page → (page - 1) * size + size ≡ page * size
last_page zero size l = absurd (omega (arith, l))
last_page (suc n) size l =
    let e : (suc n - 1) * size ≡ n * size = ap (λ (k : ℕ). k * size) (omega arith) in
    omega (arith, e)

module _ {ℓ} {T : Type ℓ} where
  -- The items of the first `n` pages, one page after the other.
  abbrev pub pages : ℕ → ℕ → List T → List T
  pages zero size all_items = []
  pages (suc n) size all_items =
      pages n size all_items ++ (of all_items (record { page = suc n; size = size })).items

  resize : (m n : ℕ) (xs : List T) → m ≡ n → take m xs ≡ take n xs
  resize m n xs e = ap (λ (k : ℕ). take k xs) e

  take_nil : (n : ℕ) → take {A = T} n [] ≡ []
  take_nil zero = refl
  take_nil (suc n) = refl

  take-append_slice : (m k : ℕ) (xs : List T) → take m xs ++ take k (drop m xs) ≡ take (m + k) xs
  take-append_slice zero k xs = resize k (0 + k) xs (omega arith)
  take-append_slice (suc m) zero [] = sym (take_nil (suc m + 0))
  take-append_slice (suc m) (suc k) [] = sym (take_nil (suc m + suc k))
  take-append_slice (suc m) k (x ∷ xs) =
      ap (λ ys. x ∷ ys) (take-append_slice m k xs)
      ∙ resize (suc (m + k)) (suc m + k) (x ∷ xs) (omega arith)

  take_all : (m : ℕ) (xs : List T) → length xs ≤ m → take m xs ≡ xs
  take_all zero [] l = refl
  take_all zero (x ∷ xs) l = absurd (omega (arith, l))
  take_all (suc m) [] l = refl
  take_all (suc m) (x ∷ xs) l = ap (λ ys. x ∷ ys) (take_all m xs (omega (arith, l)))

  pages-take :
      (n size : ℕ) (all_items : List T) → pages n size all_items ≡ take (n * size) all_items
  unfolding of slice offset
  pages-take zero size all_items = resize 0 (0 * size) all_items (omega arith)
  pages-take (suc n) size all_items =
      let here : (suc n - 1) * size ≡ n * size = ap (λ (k : ℕ). k * size) (omega arith) in
      let width : (n * size + size) - n * size ≡ size = omega arith in
      ap (λ ys. ys ++ slice ((suc n - 1) * size) ((suc n - 1) * size + size) all_items)
        (pages-take n size all_items)
      ∙ (ap (λ (k : ℕ). take (n * size) all_items ++ slice k (k + size) all_items) here
          ∙ (ap (λ ys. take (n * size) all_items ++ ys)
                (resize (n * size + size - n * size) size (drop (n * size) all_items) width)
              ∙ (take-append_slice (n * size) size all_items
                  ∙ resize (n * size + size) (suc n * size) all_items (omega arith))))

  total_pages_lem : (p : Page T) → 0 < p.size → total_pages p ≡ (p.total + (p.size - 1)) / p.size
  unfolding total_pages
  total_pages_lem p l =
      let none_left : (p.size - 1) / p.size ≡ 0 = div-eq_of_lt (omega (arith, l)) in
      ground (arith, none_left, l)

  total_pages_enough : (p : Page T) → 0 < p.size → p.total ≤ total_pages p * p.size
  total_pages_enough p l =
      let n = (p.total + (p.size - 1)) / p.size in
      let h : p.total + (p.size - 1) < n * p.size + p.size = lt-div-mul-add l in
      subst (λ (k : ℕ). p.total ≤ k * p.size) (sym (total_pages_lem p l)) (omega (arith, h, l))

  total_pages_iff :
      (p : Page T) → 0 < p.size → (n : ℕ) → (n < total_pages p) ↔ (n * p.size < p.total)
  total_pages_iff p l n =
      let below = le-div_iff_mul-le {k = p.size} {x = suc n} {y = p.total + (p.size - 1)} l in
      subst (λ (k : ℕ). (n < k) ↔ (n * p.size < p.total)) (sym (total_pages_lem p l))
        (λ h. omega (arith, below.0 h, l), λ h. below.1 (omega (arith, h, l)))

  -- The pages from the first to `total_pages`, of a positive size, are the whole list, each item
  -- once and in order.
  pub pages-total_pages :
      (all_items : List T) (request : PageRequest)
      → 0 < request.size
      → pages (total_pages (of all_items request)) request.size all_items ≡ all_items
  unfolding of
  pages-total_pages all_items request l =
      let n = total_pages (of all_items request) in
      pages-take n request.size all_items
      ∙ take_all (n * request.size) all_items (total_pages_enough (of all_items request) l)

  -- A page of a request with positive page and size has no more items than its size, and a next
  -- one exactly if items come behind it.
  pub of-has_next :
      (all_items : List T) (request : PageRequest)
      → 0 < request.page
      → 0 < request.size
      → let p = of all_items request in
        (length p.items ≤ p.size)
        × ((has_next p ≡ true) ↔ (offset request + request.size < p.total))
  unfolding of slice offset has_next
  of-has_next all_items request q l =
      let p = of all_items request in
      let here : (request.page - 1) * request.size + request.size ≡ request.page * request.size =
        last_page request.page request.size q in
      let more = total_pages_iff p l request.page in
      (
        omega (
          arith,
          length-take (offset request + request.size - offset request)
              (drop (offset request) all_items),
        ),
        (
          λ h. omega (arith, here, more.0 (ground (arith, h))),
          λ h. ground (arith, more.1 (omega (arith, here, h))),
        ),
      )
