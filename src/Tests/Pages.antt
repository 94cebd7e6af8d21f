-- ===== src/Tests/Pages.antt =====
-- The pages of rows and the page of a table.
use pgmanager.Common.{◌≤◌, ◌<◌, ◌+◌, ◌/◌, some, arith}
use pgmanager.Pager.{clicks, offset}
use pgmanager.Pager.Reach.{clicks-reach}

clicks-reach_example :
    (offset 100 (clicks 100 (some 250) (249 / 100) 0) ≤ 249)
    × (249 < offset 100 (clicks 100 (some 250) (249 / 100) 0) + 100)
clicks-reach_example = clicks-reach 100 250 249 (omega arith) (omega arith)
