-- ===== src/Columns/Structure/Listing.antt =====
-- backend/ui/src/components/tabs/StructureTab.tsx: the rows of the table and their buttons.
use pgmanager.Common.{Bool, Option, List, [], ◌∷◌, map, Text, text, or_else, if◌then◌else◌}
use pgmanager.Schemas.{ColumnInfo}
use pgmanager.Columns.Structure.{Buttons, buttons}

pub record Row : Type 0 where
  pub name : Text
  pub type : Text
  pub nullable : Text
  pub default : Text
  pub is_primary_key : Bool
  pub buttons : Buttons

pub data Listing : Type 0 where
  loading no_columns : Listing
  rows : List Row → Listing

unfoldable pub row : Bool → ColumnInfo → Row
unfolding buttons
row can_write c = record {
  name = c.name;
  type = c.type;
  nullable = if c.nullable then text "YES" else text "NO";
  default = or_else c.default (8212 ∷ []);
  is_primary_key = c.is_primary_key;
  buttons = buttons can_write c;
}

found : Bool → List ColumnInfo → Listing
unfolding row
found can_write [] = no_columns
found can_write (c ∷ cs) = rows (map (row can_write) (c ∷ cs))

unfoldable pub listing : Bool → Bool → Option (List ColumnInfo) → Listing
unfolding found
listing is_loading can_write columns =
    if is_loading then loading else found can_write (or_else columns [])
