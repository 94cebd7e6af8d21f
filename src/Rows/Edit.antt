-- ===== src/Rows/Edit.antt =====
-- backend/ui/src/components/dialogs/EditRowDialog.tsx
pub mod Unedited
use pgmanager.Common.{
  Bool, true, false, Option, none, some, List, [], ◌∷◌, map, Text, text, text_eq, or_else,
  if◌then◌else◌,
}
use pgmanager.Schemas.{Value, null, ColumnInfo, WhereCondition}
use pgmanager.Ui.{Effect, toast_success, toast_error, close, invalidate}
use pgmanager.Dict.{lookup, insert, insert_all}
use pgmanager.Rows.{Numbers, parse_value, show_value}
use pgmanager.Rows.Where.{first, rest, edit_where}

module _ (R : Numbers) where
  -- `row[i] === null ? "" : String(row[i])`
  unfoldable pub field_text : Option (Value R.N) → Text
  field_text none = text "undefined"
  field_text (some null) = []
  field_text (some v) = show_value R v

  -- What the effect assigns, column by column.
  unfoldable pub field_texts : List ColumnInfo → List (Value R.N) → List (Text × Text)
  unfolding field_text
  field_texts [] row = []
  field_texts (col ∷ columns) row =
      (col.name, field_text (first row)) ∷ field_texts columns (rest row)

  -- The effect on `[open, row, columns]`: the new `values`.
  unfoldable pub fill :
      Bool
      → Option (List (Value R.N))
      → Option (List ColumnInfo)
      → List (Text × Text)
      → List (Text × Text)
  unfolding field_texts
  fill true (some row) (some columns) values = insert_all [] (field_texts columns row)
  fill _ _ _ values = values

  -- `onChange` of a field
  unfoldable pub set_value : Text → Text → List (Text × Text) → List (Text × Text)
  set_value name v values = insert name v values

  -- The value that is sent for a column.
  unfoldable pub saved : List (Text × Text) → ColumnInfo → Value R.N
  saved values col =
      let raw = or_else (lookup col.name values) [] in
      if text_eq raw [] then null else parse_value R raw col.type

  pub data Outcome : Type 0 where
    thrown : Text → Outcome
    update_row : List (Text × Value R.N) → List (WhereCondition R.N) → Outcome

  -- `mutationFn`
  unfoldable pub submit :
      Option (List (Value R.N)) → Option (List ColumnInfo) → List (Text × Text) → Outcome
  unfolding saved
  submit (some row) (some columns) values =
      update_row (insert_all [] (map (λ col. (col.name, saved values col)) columns))
        (edit_where row columns)
  submit _ _ values = thrown (text "No row selected")

  -- `onSuccess` and `onError`
  unfoldable pub settled : Text → Text → Option Text → List Effect
  settled db table none =
      toast_success (text "Row updated") ∷ close ∷ invalidate (text "data" ∷ db ∷ table ∷ []) ∷ []
  settled db table (some e) = toast_error e ∷ []
