-- ===== src/Rows/Insert.antt =====
-- backend/ui/src/components/dialogs/InsertRowDialog.tsx
pub mod Required
use pgmanager.Common.{
  Bool, true, false, not, ◌&&◌, Option, none, some, List, [], ◌∷◌, ◌++◌, Text, text, text_includes,
  is_empty, or_else, if◌then◌else◌, filter_by,
}
use pgmanager.Schemas.{Value, ColumnInfo}
use pgmanager.Ui.{Effect, toast_success, toast_error, close, invalidate}
use pgmanager.Dict.{lookup, insert_all}
use pgmanager.Rows.{Numbers, parse_value}

abbrev pub is_serial : ColumnInfo → Bool
is_serial col = text_includes col.type (text "SERIAL")

-- The columns that the form has a field for.
unfoldable pub fields : List ColumnInfo → List ColumnInfo
fields columns = filter_by (λ col. not (is_serial col)) columns

-- `values[col.name]`, where undefined and "" are treated alike.
abbrev pub raw : List (Text × Text) → ColumnInfo → Text
raw values col = or_else (lookup col.name values) []

module _ (R : Numbers) where
  pub data Outcome : Type 0 where
    thrown : Text → Outcome
    insert_row : List (Text × Value R.N) → Outcome

  -- The assignment of one round in front of those of the rounds behind it.
  abbrev assign : Text × Value R.N → Outcome → Outcome
  assign p (thrown e) = thrown e
  assign p (insert_row ps) = insert_row (p ∷ ps)

  -- The rounds of the loop in `mutationFn`: the assignments to `parsed`, or the error.
  pub rounds : List (Text × Text) → List ColumnInfo → Outcome
  rounds values [] = insert_row []
  rounds values (col ∷ columns) =
      let later = rounds values columns in
      if is_empty (raw values col)
      then if not col.nullable && not (is_serial col)
        then thrown (col.name ++ text " is required")
        else later
      else assign (col.name, parse_value R (raw values col) col.type) later

  finish : Outcome → Outcome
  finish (thrown e) = thrown e
  finish (insert_row ps) = insert_row (insert_all [] ps)

  -- `mutationFn`, with `columns || []`
  unfoldable pub submit : Option (List ColumnInfo) → List (Text × Text) → Outcome
  unfolding rounds finish
  submit columns values = finish (rounds values (or_else columns []))

  -- `onSuccess`, which empties the fields, and `onError`
  unfoldable pub settled :
      Text → Text → Option Text → List (Text × Text) → List (Text × Text) × List Effect
  settled db table none values = (
    [],
    toast_success (text "Row inserted") ∷ close ∷ invalidate (text "data" ∷ db ∷ table ∷ []) ∷ [],
  )
  settled db table (some e) values = (values, toast_error e ∷ [])
