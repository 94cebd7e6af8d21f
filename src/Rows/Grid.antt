-- ===== src/Rows/Grid.antt =====
-- backend/ui/src/components/tabs/DataTab.tsx: the table that it shows, and the buttons of a row.
pub mod Buttons
pub mod Loaded
use pgmanager.Common.{
  Bool, Option, none, some, List, [], ◌∷◌, map, Text, text_eq, is_nil, if◌then◌else◌,
}
use pgmanager.Schemas.{Value, null, DataResult}
use pgmanager.Rows.{Numbers, show_value}
use pgmanager.Rows.Detail.{Detail, Direction, Event, edit, delete, step}

-- The head of a column, with the arrow of the order.
pub record Head : Type 0 where
  pub name : Text
  pub arrow : Option Direction

unfoldable pub head : {N : Type 0} → Detail N → Text → Head
head s col = record { name = col; arrow = if text_eq s.sort_col col then some s.sort_dir else none }

-- A cell: the word NULL, which is set in italics, or a text.
pub data Cell : Type 0 where
  null_word : Cell
  shown : Text → Cell

-- A row with its two buttons and what a click on them does, if it has them.
pub record RowView (N : Type 0) : Type 0 where
  pub cells : List Cell
  pub pencil : Option (Event N)
  pub bin : Option (Event N)

pub data View (N : Type 0) : Type 0 where
  loading no_data : View N
  table : List Head → List (RowView N) → View N

module _ (R : Numbers) where
  unfoldable pub cell : Value R.N → Cell
  unfolding show_value
  cell null = null_word
  cell v = shown (show_value R v)

  unfoldable pub row_view : Bool → List Text → List (Value R.N) → RowView R.N
  unfolding cell
  row_view can_write columns row = record {
    cells = map cell row;
    pencil = if can_write then some (edit row) else none;
    bin = if can_write then some (delete row columns) else none;
  }

  -- What is shown of the data, which is there once it is loaded.
  unfoldable pub view : Bool → Bool → Detail R.N → Option (DataResult R.N) → View R.N
  unfolding head row_view
  view is_loading can_write s none = if is_loading then loading else no_data
  view is_loading can_write s (some data_of) =
      if is_loading
      then loading
      else if is_nil data_of.columns
      then no_data
      else table (map (head s) data_of.columns)
          (map (row_view can_write data_of.columns) data_of.rows)

-- A click on a button that is there.
unfoldable pub press : {N : Type 0} → Bool → Option (Event N) → Detail N → Detail N
unfolding step
press can_write none s = s
press can_write (some e) s = step can_write s e
