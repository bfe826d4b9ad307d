-- ===== src/Application/Pagination.antt =====
-- src/mp_commons/application/pagination: `PageRequest` and `Page`. Sorts and filters are data that
-- nothing here reads.
pub mod Pages
mod Tests
use python_commons.Base.{
  ℕ, zero, suc, ◌+◌, ◌-◌, ◌*◌, ◌/◌, Bool, true, false, ◌||◌, Option, none, some, List, map, length,
  take, drop, ltb, leb, if◌then◌else◌,
}

pub record PageRequest : Type 0 where
  pub page : ℕ
  pub size : ℕ

-- `__post_init__`: `none` is `ValueError`.
unfoldable pub post_init : PageRequest → Option PageRequest
post_init request =
    if ltb request.page 1
    then none
    else if ltb request.size 1 || ltb 1000 request.size
    then none
    else some request

unfoldable pub offset : PageRequest → ℕ
offset request = (request.page - 1) * request.size

pub record Page {ℓ} (T : Type ℓ) : Type ℓ where
  pub items : List T
  pub total : ℕ
  pub page : ℕ
  pub size : ℕ

module _ {ℓ} {T : Type ℓ} where
  -- `math.ceil(total / size)`, of a positive size
  unfoldable pub total_pages : Page T → ℕ
  total_pages p = if leb p.size 0 || leb p.total 0 then 0 else (p.total + (p.size - 1)) / p.size

  unfoldable pub has_next : Page T → Bool
  has_next p = ltb p.page (total_pages p)

  unfoldable pub has_previous : Page T → Bool
  has_previous p = ltb 1 p.page

  -- `all_items[start:end]`
  unfoldable pub slice : ℕ → ℕ → List T → List T
  slice start end all_items = take (end - start) (drop start all_items)

  unfoldable pub of : List T → PageRequest → Page T
  of all_items request = record {
    items = slice (offset request) (offset request + request.size) all_items;
    total = length all_items;
    page = request.page;
    size = request.size;
  }

unfoldable pub map_page {ℓ κ} : {T : Type ℓ} {U : Type κ} → (T → U) → Page T → Page U
map_page fn p = record { items = map fn p.items; total = p.total; page = p.page; size = p.size }
