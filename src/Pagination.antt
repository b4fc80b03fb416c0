-- ===== src/Pagination.antt =====
-- web/src/lib/paginate-shared.ts: pages of a list. `none` is a number that `Math.trunc(…) || 1`
-- replaces: `NaN`, or one whose integer part is 0. A negative one is handled by `Math.max` alike.
pub mod Bounds
pub mod Window
use chicoree.Prelude.{
  ℕ, zero, suc, ◌+◌, ◌-◌, ◌*◌, ◌/◌, ◌%◌, Bool, Option, none, some, List, [], ◌∷◌, ◌++◌, ltb, leb,
  ◌==◌, min, max, if◌then◌else◌, length, take, drop,
}

pub record PageState : Type 0 where
  pub page : ℕ
  pub page_size : ℕ
  pub total : ℕ
  pub pages : ℕ
  pub offset : ℕ
  pub first : ℕ
  pub last : ℕ
  pub has_prev : Bool
  pub has_next : Bool

-- `Math.ceil(n / d)`, for a positive `d`.
abbrev pub ceil_div : ℕ → ℕ → ℕ
ceil_div n d = (n + (d - 1)) / d

-- The state of a page, from the values before it.
unfoldable pub state_of : (total size page pages : ℕ) → PageState
state_of total size page pages =
    let offset = (page - 1) * size in
    record {
      page = page;
      page_size = size;
      total = total;
      pages = pages;
      offset = offset;
      first = if total == 0 then 0 else offset + 1;
      last = min total (offset + size);
      has_prev = ltb 1 page;
      has_next = ltb page pages;
    }

-- Clamp a requested page against a known total; a size or a page of 0 counts as 1.
unfoldable pub paginate : ℕ → ℕ → ℕ → PageState
paginate total requested_page page_size =
    let size = max 1 page_size in
    let pages = max 1 (ceil_div total size) in
    state_of total size (min (max 1 requested_page) pages) pages

-- The rows are `slice(offset, offset + pageSize)`.
unfoldable pub page_slice {ℓ} : {A : Type ℓ} → List A → ℕ → ℕ → List A × PageState
page_slice rows requested_page page_size =
    let state = paginate (length rows) requested_page page_size in
    (take state.page_size (drop state.offset rows), state)

-- One count and one slice; a page past the end reads the last page instead. `rows limit offset` is
-- the query.
unfoldable pub paginated_query {ℓ} :
    {A : Type ℓ} → (rows : ℕ → ℕ → List A) → (count page page_size : ℕ) → List A × PageState
paginated_query rows count page page_size =
    let size = max 1 page_size in
    let requested = max 1 page in
    let state = paginate count requested size in
    if state.page == requested
    then (rows size ((requested - 1) * size), state)
    else (rows size state.offset, state)

-- `first, first + 1, …`, `n` numbers.
numbers_from : ℕ → ℕ → List ℕ
numbers_from first zero = []
numbers_from first (suc n) = first ∷ numbers_from (first + 1) n

-- The page numbers around the current one, 0 for a gap. `max - 4` stops at 0, below the 1.
unfoldable pub page_window : ℕ → ℕ → ℕ → List ℕ
unfolding numbers_from
page_window page pages most =
    let inner = max 1 (most - 4) in
    let first = min (max 2 (page - inner / 2)) (pages - inner) in
    let last = first + inner - 1 in
    if leb pages most
    then numbers_from 1 pages
    else 1
      ∷ ((if ltb 2 first then 0 ∷ [] else [])
          ++ (numbers_from first inner
              ++ ((if ltb last (pages - 1) then 0 ∷ [] else []) ++ pages ∷ [])))
