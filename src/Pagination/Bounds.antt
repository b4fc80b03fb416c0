-- ===== src/Pagination/Bounds.antt =====
-- The page that is shown lies in the list, and the pages cover it.
use chicoree.Prelude.{
  ℕ, zero, suc, ◌+◌, ◌-◌, ◌*◌, ◌≤◌, ◌<◌, ◌≡◌, subst, ◌∙◌, ap, List, ◌++◌, min, max, length, take,
  drop, take-append-drop, arith,
}
use chicoree.Pagination.{PageState, ceil_div, paginate, state_of, page_slice}

-- What a control needs of a state over `total` rows.
pub record IsValid (s : PageState) : Type 0 where
  pub page_pos : 1 ≤ s.page
  pub page_le : s.page ≤ s.pages
  pub size_pos : 1 ≤ s.page_size
  -- A page that is not the last one is full, and the last one ends the list.
  pub full : s.page < s.pages → s.last ≡ s.offset + s.page_size
  pub ends : s.page ≡ s.pages → s.last ≡ s.total
  -- A list that is not empty has a row on the page, from `first` to `last`.
  pub some_row : 0 < s.total → (s.first ≡ s.offset + 1) × (s.first ≤ s.last)
  pub no_row : s.total ≡ 0 → (s.first ≡ 0) × (s.last ≡ 0)

ceil_below : (n d p : ℕ) → 1 ≤ d → p < ceil_div n d → p * d < n
ceil_below n d p h k = grind arith

ceil_above : (n d : ℕ) → 1 ≤ d → n ≤ ceil_div n d * d
ceil_above n d h = grind arith

-- The last row of a page, over the page before it.
module _ (total size page : ℕ) (size_pos : 1 ≤ size) where
  last_full :
      suc page < max 1 (ceil_div total size) → min total (page * size + size) ≡ page * size + size
  last_full h =
      let below : suc page * size < total =
        ceil_below total size (suc page) size_pos (omega arith) in
      omega arith

  last_end : suc page ≡ max 1 (ceil_div total size) → min total (page * size + size) ≡ total
  last_end h = end_lem (ceil_div total size) (ceil_above total size size_pos) h
    where
      end_lem :
          (c : ℕ) → total ≤ c * size → suc page ≡ max 1 c → min total (page * size + size) ≡ total
      end_lem zero above same = omega arith
      end_lem (suc c) above same =
          let e : c ≡ page = omega arith in
          let below : total ≤ suc page * size = subst (λ k. total ≤ suc k * size) e above in
          omega arith

  first_le :
      suc page ≤ max 1 (ceil_div total size)
      → 0 < total
      → page * size + 1 ≤ min total (page * size + size)
  first_le h k =
      let below : page * size < total =
        ceil_below total size page size_pos
          (starts (ceil_div total size) (ceil_above total size size_pos) h) in
      omega arith
    where
      starts : (c : ℕ) → total ≤ c * size → suc page ≤ max 1 c → page < c
      starts zero above le = absurd (omega arith)
      starts (suc c) above le = omega arith

  valid :
      suc page ≤ max 1 (ceil_div total size)
      → IsValid (state_of total size (suc page) (max 1 (ceil_div total size)))
  unfolding state_of
  valid h =
      let e : suc page - 1 ≡ page = omega arith in
      record {
        page_pos = omega arith;
        page_le = h;
        size_pos = size_pos;
        full = λ k. rw e (last_full k);
        ends = λ k. rw e (last_end k);
        some_row = λ k. (ground arith, rw e (ground (arith, first_le h k)));
        no_row = λ e. (ground arith, omega arith);
      }

-- Whatever is requested, the state is that of a page of the list: the pages before the last are
-- full, the last ends with the last row, and a page of a list that is not empty shows a row.
pub paginate-IsValid : (total requested size : ℕ) → IsValid (paginate total requested size)
unfolding paginate
paginate-IsValid total requested size =
    shifted (min (max 1 requested) (max 1 (ceil_div total (max 1 size)))) (omega arith)
      (omega arith)
  where
    shifted :
        (page : ℕ)
        → 1 ≤ page
        → page ≤ max 1 (ceil_div total (max 1 size))
        → IsValid (state_of total (max 1 size) page (max 1 (ceil_div total (max 1 size))))
    shifted zero h k = absurd (omega arith)
    shifted (suc page) h k = valid total (max 1 size) page (omega arith) k

-- Reading the rows page by page gives each of them: what stands before a page, the page and what
-- follows it make up the list.
pub page_slice-covers {ℓ} :
    {A : Type ℓ} (rows : List A) (requested size : ℕ)
    → take (page_slice rows requested size).1.offset rows
        ++ ((page_slice rows requested size).0
            ++ drop
                (page_slice rows requested size).1.page_size
                (drop (page_slice rows requested size).1.offset rows))
      ≡ rows
unfolding page_slice
page_slice-covers rows requested size =
    let state = paginate (length rows) requested size in
    ap (λ l. take state.offset rows ++ l)
      (take-append-drop state.page_size (drop state.offset rows))
    ∙ take-append-drop state.offset rows
