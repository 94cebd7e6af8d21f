-- ===== src/Tests/Grid.antt =====
-- The table of rows.
use pgmanager.Common.{pos, refl, true, List, [], ◌∷◌, text, text_eq, is_empty}
use pgmanager.Schemas.{Value, null, num, DataResult}
use pgmanager.Rows.Where.Exact.{AreNames}
use pgmanager.Rows.Detail.{Detail, initial}
use pgmanager.Rows.Grid.{RowView, row_view, view, press}
use pgmanager.Rows.Grid.Buttons.{Deletes, StandsBehind, bin-Deletes}
use pgmanager.Tests.Fixtures.{ne, naturals, two_names, a_row}

abbrev rows_of : DataResult naturals.N
rows_of = record { columns = two_names; rows = a_row ∷ []; total = pos 1 }

two_names-AreNames : AreNames two_names
unfolding text text_eq is_empty
two_names-AreNames = (refl, (ne (text "label") (text "id") refl, tt), (refl, tt, tt))

abbrev other_row : List (Value naturals.N)
other_row = num 8 ∷ null ∷ []

abbrev shown_row : RowView naturals.N
shown_row = row_view naturals true two_names a_row

abbrev sorted : Detail naturals.N
sorted = initial

bin-Deletes_example :
    (row : List (Value naturals.N)) × StandsBehind naturals rows_of 0 shown_row row
    × Deletes naturals two_names row other_row (press true shown_row.bin sorted)
unfolding view
bin-Deletes_example =
    bin-Deletes naturals sorted rows_of 0 shown_row other_row two_names-AreNames (refl, tt) refl
      refl
