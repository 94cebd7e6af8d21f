-- ===== src/Rows/Grid/Buttons.antt =====
-- Which row the bin of a shown row deletes, and which column shows the order.
use mathlib.Core.Path.{subst}
use pgmanager.Common.{
  get_elem?-map, All-get_elem?, Bool-cases, inl, inr, text_eq_iff, ℕ, ◌≡◌, ◌↔◌, refl, ap, true,
  false, none, some, List, [], map, Text, text_eq, length, get_elem?, is_nil, All, arith,
  if◌then◌else◌,
}
use pgmanager.Schemas.{Value, WhereCondition, DataResult}
use pgmanager.Rows.{Numbers}
use pgmanager.Rows.Where.{build_row_where}
use pgmanager.Rows.Where.Exact.{AreNames, Holds, build_row_where_iff}
use pgmanager.Rows.Detail.{Detail, step, delete_row, submit_delete, asc, flip, handle_sort}
use pgmanager.Rows.Grid.{head, cell, RowView, row_view, View, loading, no_data, table, view, press}

abbrev pub shown_rows : {N : Type 0} → View N → List (RowView N)
shown_rows loading = []
shown_rows no_data = []
shown_rows (table heads rows) = rows

module _ (R : Numbers) where
  -- The confirmation that is open sends conditions that hold of that other row exactly if it is the
  -- row.
  abbrev pub Deletes : List Text → List (Value R.N) → List (Value R.N) → Detail R.N → Type 0
  Deletes columns row other s =
      (conditions : List (WhereCondition R.N)) × (submit_delete s.delete_where
        ≡ delete_row conditions)
      × (All (Holds columns other) conditions ↔ (other ≡ row))

  press-bin :
      (columns : List Text) (row other : List (Value R.N)) (s : Detail R.N)
      → AreNames columns
      → length row ≡ length columns
      → length other ≡ length columns
      → Deletes columns row other (press true (row_view R true columns row).bin s)
  unfolding press row_view step submit_delete
  press-bin columns row other s n l k =
      (build_row_where row columns, refl, build_row_where_iff columns row other n l k)

  -- The row that stands behind a row of the table.
  abbrev pub StandsBehind : DataResult R.N → ℕ → RowView R.N → List (Value R.N) → Type 0
  StandsBehind d i shown row = (get_elem? d.rows i ≡ some row) × (map (cell R) row ≡ shown.cells)

  -- For loaded data whose columns have distinct names that are not empty, and whose rows have a value
  -- for each column: behind the row shown at a place is the row of the data at that place, whose values
  -- its cells show, and a click on its bin and the confirmation send conditions that hold of another
  -- row exactly if that row is equal to it in every column.
  pub bin-Deletes :
      (s : Detail R.N) (d : DataResult R.N) (i : ℕ) (shown : RowView R.N) (other : List (Value R.N))
      → AreNames d.columns
      → All (λ row. length row ≡ length d.columns) d.rows
      → length other ≡ length d.columns
      → get_elem? (shown_rows (view R false true s (some d))) i ≡ some shown
      → (row : List (Value R.N)) × StandsBehind d i shown row
        × Deletes d.columns row other (press true shown.bin s)
  unfolding view
  bin-Deletes s d i shown other n l k h = elim (Bool-cases (is_nil d.columns)) [
    | inl e ↦ absurd (ground (arith, rw e at h))
    | inr e ↦
        let (row, found, q) =
          get_elem?-map (row_view R true d.columns) d.rows i shown (rw e at h) in
        let full = All-get_elem? (λ r. length r ≡ length d.columns) d.rows i row l found in
        (
          row,
          (found, ap (λ v. v.cells) q),
          subst (λ v. Deletes d.columns row other (press true v.bin s)) q
              (press-bin d.columns row other s n full k),
        )
  ]

-- After a click on the head of a column exactly that column shows an arrow: the other way round if it
-- showed one before, and upwards if not; and the first page is shown.
pub handle_sort-arrow :
    {N : Type 0} (s : Detail N) (col name : Text)
    → ((head (handle_sort col s) name).arrow ≡ (
        if text_eq name col
        then some (if text_eq s.sort_col col then flip s.sort_dir else asc)
        else none))
      × ((handle_sort col s).page ≡ 0)
unfolding head handle_sort
handle_sort-arrow s col name = (
  ground (
    arith,
    text_eq_iff s.sort_col col,
    text_eq_iff name col,
    text_eq_iff col name,
    text_eq_iff s.sort_col name,
  ),
  ground arith,
)
