-- ===== src/Pager/Reach.antt =====
-- Which pages can be reached, and which are empty.
use mathlib.Core.Path.{subst, ◌∙◌}
use pgmanager.Common.{ℕ, zero, suc, ◌+◌, ◌-◌, ◌*◌, ◌/◌, ◌≤◌, ◌<◌, ◌≡◌, ◌⊎◌, none, some, arith}
use pgmanager.Pager.{total_pages, offset, controls, Click, previous, next, click, clicks}

-- The page shows a row, or it is the first.
abbrev pub IsOnPage : ℕ → ℕ → ℕ → Type 0
IsOnPage size total page = (offset size page < total) ⊎ (page ≡ 0)

next_page :
    (size total page : ℕ)
    → 0 < size
    → page + 1 < (total + (size - 1)) / size
    → (page + 1) * size < total
next_page size total page h k = grind arith

prev_page : (size total page : ℕ) → page * size < total → (page - 1) * size < total
prev_page size total page h = grind arith

-- For a page size above 0, a click keeps the page within the rows: from a page that shows a row,
-- or from the first page, either button leads to such a page again.
pub click-IsOnPage :
    (size total page : ℕ) (c : Click)
    → 0 < size
    → IsOnPage size total page
    → IsOnPage size total (click size (some total) c page)
unfolding click controls total_pages offset
click-IsOnPage size total page previous h p = ground (arith, prev_page size total page)
click-IsOnPage size total page next h p = ground (arith, next_page size total page h)

more_pages :
    (size total page : ℕ)
    → 0 < size
    → (page + 1) * size < total
    → page + 1 < (total + (size - 1)) / size
more_pages size total page h k = grind arith

size_lt : (size total page : ℕ) → (page + 1) * size < total → size < total
size_lt size total page k = grind arith

click_next :
    (size total page : ℕ)
    → 0 < size
    → (page + 1) * size < total
    → click size (some total) next page ≡ page + 1
unfolding click controls total_pages
click_next size total page h k =
    ground (arith, more_pages size total page h k, size_lt size total page k)

clicks-add :
    (size total k page : ℕ)
    → 0 < size
    → (page + k) * size < total
    → clicks size (some total) k page ≡ page + k
unfolding clicks
clicks-add size total zero page h l = omega arith
clicks-add size total (suc k) page h l =
    let near : (page + 1) * size < total = grind arith in
    let further : (page + 1 + k) * size < total =
      subst (λ p. p * size < total) (let e : page + suc k ≡ page + 1 + k = omega arith in e) l in
    rw (click_next size total page h near)
      (clicks-add size total k (page + 1) h further ∙ (omega arith))

-- For a page size above 0, every row can be reached: from the first page, as many clicks on
-- "next" as there are full pages in front of the row lead to the page that shows it.
pub clicks-reach :
    (size total row : ℕ)
    → 0 < size
    → row < total
    → let page = clicks size (some total) (row / size) 0 in
      (offset size page ≤ row) × (row < offset size page + size)
unfolding offset
clicks-reach size total row h l =
    let e : clicks size (some total) (row / size) 0 ≡ row / size =
      clicks-add size total (row / size) 0 h (grind arith) ∙ (omega arith) in
    rw e (grind arith, grind arith)

-- If the rows have become few enough for one page while a later page was shown, that page shows no
-- row, and there is no button left to leave it by.
pub click_stuck :
    (size total page : ℕ) (c : Click)
    → total ≤ size
    → 0 < page
    → (total ≤ offset size page)
      × (controls size (some total) page ≡ none)
      × (click size (some total) c page ≡ page)
unfolding click controls offset
click_stuck size total page previous h k = (grind arith, ground arith, ground arith)
click_stuck size total page next h k = (grind arith, ground arith, ground arith)
