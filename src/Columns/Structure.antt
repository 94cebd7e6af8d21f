-- ===== src/Columns/Structure.antt =====
-- backend/ui/src/components/tabs/StructureTab.tsx: the tab mounts one EditColumnDialog, hands it
-- the column whose pencil was clicked, and drops columns.
pub mod Stale
pub mod Listing
use pgmanager.Common.{
  Bool, true, false, not, ◌&&◌, Option, none, some, List, [], ◌∷◌, ◌++◌, Text, text, if◌then◌else◌,
  is_some,
}
use pgmanager.Schemas.{ColumnInfo}
use pgmanager.Ui.{Effect, toast_success, toast_error, close, invalidate}
use pgmanager.Columns.Edit
use pgmanager.Columns.Edit.{Form, Input, change}

-- `editColumn`, and the state of the dialog below the tab, which stays mounted.
pub record Tab : Type 0 where
  pub edit_column : Option ColumnInfo
  pub form : Form

pub data Event : Type 0 where
  -- the pencil of a column
  edit : ColumnInfo → Event
  -- `onOpenChange(open)` of the dialog
  open_change : Bool → Event
  -- an input of the dialog
  input : Input → Event

-- The tab as it is mounted: no column is chosen, and the dialog takes its initial state from that.
unfoldable pub mount : Tab
unfolding Edit.mount
mount = record { edit_column = none; form = Edit.mount none }

unfoldable pub step : Tab → Event → Tab
step tab (edit c) = record tab { edit_column = some c }
step tab (open_change opened) = if opened then tab else record tab { edit_column = none }
step tab (input i) = record tab { form = change i tab.form }

unfoldable pub steps : Tab → List Event → Tab
unfolding step
steps tab [] = tab
steps tab (e ∷ es) = steps (step tab e) es

-- The buttons of a column's row: whether the pencil and the bin are there, and whether the bin can
-- be clicked.
pub record Buttons : Type 0 where
  pub pencil : Bool
  pub bin : Bool
  pub bin_enabled : Bool

unfoldable pub buttons : Bool → ColumnInfo → Buttons
buttons can_write c = record {
  pencil = can_write;
  bin = can_write;
  bin_enabled = not c.is_primary_key;
}

-- A click on the bin: the name that `dropColMutation` is called with, if the user confirms.
unfoldable pub click_bin : Bool → Bool → ColumnInfo → Option Text
unfolding buttons
click_bin can_write confirmed c =
    if (buttons can_write c).bin && (buttons can_write c).bin_enabled && confirmed
    then some c.name
    else none

-- `onSuccess` and `onError` of `dropColMutation`
unfoldable pub dropped : Text → Text → Option Text → List Effect
dropped db table none =
    toast_success (text "Column dropped") ∷ invalidate (text "columns" ∷ db ∷ table ∷ []) ∷ []
dropped db table (some e) = toast_error e ∷ []
