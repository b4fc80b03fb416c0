-- ===== src/Tests/Pages.antt =====
-- Pages, pull policies and the names of proxy caches.
use chicoree.Prelude.{ℕ, ◌≡◌, ◌++◌, refl, true, false, some, List, [], ◌∷◌, take, drop, is_some}
use chicoree.Pagination.{paginate, page_slice, page_window}
use chicoree.Pagination.Bounds.{IsValid, paginate-IsValid, page_slice-covers}
use chicoree.PullPolicy.{high, Severity, SeveritySummary, violation}

pages : Unit {0}
unfolding paginate page_slice page_window violation
pages = tt

window_test : page_window 10 20 7 ≡ 1 ∷ 0 ∷ 9 ∷ 10 ∷ 11 ∷ 0 ∷ 20 ∷ []
unfolding page_window
window_test = refl

-- With less room than five the control is wider than asked for.
window_narrow : page_window 5 10 3 ≡ 1 ∷ 0 ∷ 5 ∷ 0 ∷ 10 ∷ []
unfolding page_window
window_narrow = refl

paginate-IsValid_example : IsValid (paginate 101 9 25)
paginate-IsValid_example = paginate-IsValid 101 9 25

abbrev rows : List ℕ
rows = 1 ∷ 2 ∷ 3 ∷ []

page_slice-covers_example :
    take (page_slice rows 2 2).1.offset rows
      ++ ((page_slice rows 2 2).0
          ++ drop (page_slice rows 2 2).1.page_size (drop (page_slice rows 2 2).1.offset rows))
    ≡ rows
page_slice-covers_example = page_slice-covers rows 2 2

-- Two high findings.
abbrev summary : SeveritySummary
summary Severity.high = 2
summary Severity.low = 1
summary _ = 0

high_blocks :
    is_some (violation (some summary) (record { level = some high; unrated = false })) ≡ true
unfolding pages
high_blocks = refl
