-- ===== src/Rows/Where.antt =====
-- The conditions that single out a row: `buildRowWhere` in backend/ui/src/components/tabs/
-- DataTab.tsx, and the `where` of `mutationFn` in components/dialogs/EditRowDialog.tsx.
pub mod Exact
use pgmanager.Common.{
  Bool, true, false, Option, none, some, List, [], ◌∷◌, Text, is_empty, if◌then◌else◌,
}
use pgmanager.Schemas.{
  Value, null, bool, num, str, compound, Operator, eq, is_null, WhereCondition, ColumnInfo,
}

module _ {N : Type 0} where
  -- `row[0]` and the row behind it; `none` is undefined.
  abbrev pub first : List (Value N) → Option (Value N)
  first [] = none
  first (v ∷ row) = some v

  abbrev pub rest : List (Value N) → List (Value N)
  rest [] = []
  rest (v ∷ row) = row

  -- The condition that `buildRowWhere` pushes for a value.
  unfoldable pub row_condition : Text → Option (Value N) → WhereCondition N
  row_condition name none = record { column = name; operator = is_null; value = none }
  row_condition name (some null) = record { column = name; operator = is_null; value = none }
  row_condition name (some v) = record { column = name; operator = eq; value = some v }

  -- The loop over the names of the columns and the values of the row.
  unfoldable pub build_row_where : List (Value N) → List Text → List (WhereCondition N)
  unfolding row_condition
  build_row_where row [] = []
  build_row_where row (name ∷ columns) =
      let conditions = build_row_where (rest row) columns in
      if is_empty name then conditions else row_condition name (first row) ∷ conditions

  -- The condition of EditRowDialog: only null is tested, an undefined value stays undefined.
  unfoldable pub edit_condition : Text → Option (Value N) → WhereCondition N
  edit_condition name (some null) = record { column = name; operator = is_null; value = none }
  edit_condition name v = record { column = name; operator = eq; value = v }

  unfoldable pub edit_where : List (Value N) → List ColumnInfo → List (WhereCondition N)
  unfolding edit_condition
  edit_where row [] = []
  edit_where row (col ∷ columns) =
      edit_condition col.name (first row) ∷ edit_where (rest row) columns
