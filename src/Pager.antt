-- ===== src/Pager.antt =====
-- The pages of backend/ui/src/components/tabs/DataTab.tsx (100 rows) and of
-- backend/ui/src/routes/Logs.tsx (50 entries): the same arithmetic, for a page size that is not 0.
pub mod Reach
use pgmanager.Common.{
  ℕ, suc, ◌+◌, ◌-◌, ◌*◌, ◌/◌, Bool, true, false, not, Option, none, some, leb, ltb, ◌==◌,
  if◌then◌else◌,
}

-- `Math.ceil(data.total / size)`, which is 0 before there are data.
unfoldable pub total_pages : ℕ → Option ℕ → ℕ
total_pages size none = 0
total_pages size (some total) = (total + (size - 1)) / size

-- `offset: page * size`
unfoldable pub offset : ℕ → ℕ → ℕ
offset size page = page * size

-- Which of the two buttons can be clicked. `page >= totalPages - 1` is said without the difference,
-- which may be -1 in the source.
pub record Buttons : Type 0 where
  pub previous : Bool
  pub next : Bool

-- The controls are there only if there is more than one page.
unfoldable pub controls : ℕ → Option ℕ → ℕ → Option Buttons
unfolding total_pages
controls size none page = none
controls size (some total) page =
    if ltb size total
    then some (record {
      previous = not (page == 0);
      next = not (leb (total_pages size (some total)) (page + 1));
    })
    else none

pub data Click : Type 0 where
  previous next : Click

abbrev can : Click → Option Buttons → Bool
can c none = false
can previous (some b) = b.previous
can next (some b) = b.next

-- A click, which does nothing where the button is disabled or not there.
unfoldable pub click : ℕ → Option ℕ → Click → ℕ → ℕ
unfolding controls
click size total previous page = if can previous (controls size total page) then page - 1 else page
click size total next page = if can next (controls size total page) then page + 1 else page

-- A number of clicks on the button "next".
unfoldable pub clicks : ℕ → Option ℕ → ℕ → ℕ → ℕ
unfolding click
clicks size total ℕ.zero page = page
clicks size total (suc k) page = clicks size total k (click size total next page)
