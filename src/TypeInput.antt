-- ===== src/TypeInput.antt =====
-- backend/ui/src/components/TypeAwareInput.tsx: which control edits a value of a column.
pub mod Chosen
use pgmanager.Common.{
  Bool, true, false, ◌||◌, Option, Text, text, text_eq, or_else, [], if◌then◌else◌,
}
use pgmanager.Schemas.{ColumnInfo}
use pgmanager.PgTypes.{
  Category, auto_increment, numeric, string, boolean, date_time, special, json, binary, network,
  other, get_type_category,
}

-- The control with what it shows: a switch with its label, inputs for times with the value, and
-- inputs with the value and a placeholder; an input for numbers steps by 1 or by any amount.
pub data Control : Type 0 where
  switch : Bool → Text → Control
  time_input date_input datetime_input : Text → Control
  number_input : Bool → Text → Text → Control
  text_area text_input : Text → Text → Control

placeholder : ColumnInfo → Text
placeholder column = or_else column.default []

is_float : Text → Bool
is_float t =
    text_eq t (text "REAL") || text_eq t (text "DOUBLE PRECISION") || text_eq t (text "NUMERIC")

unfoldable pub by_category : Category → ColumnInfo → Text → Control
unfolding placeholder is_float
by_category boolean column value =
    let on = text_eq value (text "true") in switch on (if on then text "TRUE" else text "FALSE")
by_category date_time column value =
    if text_eq column.type (text "TIME")
    then time_input value
    else if text_eq column.type (text "DATE")
    then date_input value
    else datetime_input value
by_category numeric column value = number_input (is_float column.type) value (placeholder column)
by_category json column value = text_area value (placeholder column)
by_category _ column value = text_input value (placeholder column)

unfoldable pub control : ColumnInfo → Text → Control
control column value = by_category (get_type_category column.type) column value

-- The value that a click on a switch sets.
unfoldable pub on_checked_change : Bool → Text
on_checked_change checked = if checked then text "true" else text "false"
