-- ===== src/Backups/Listing.antt =====
-- backend/ui/src/components/backup/BackupDatabaseTab.tsx: the list of databases, and its clicks.
use pgmanager.Common.{
  ◌≡◌, Bool, true, false, not, ◌||◌, ◌==◌, Option, none, some, List, [], ◌∷◌, ◌++◌, map, Text, text,
  text_eq, show_nat, is_nil, length, if◌then◌else◌,
}
use pgmanager.Selection.{mem, click_badge}
use pgmanager.Selection.AsSet.{mem-click_badge}
use pgmanager.Backups.{Panel, toggle}

pub record Item : Type 0 where
  pub label : Text
  pub checked : Bool

-- The list: the box for all of them with its label, the boxes of the databases, and the button.
pub record Boxes : Type 0 where
  pub all_checked : Bool
  pub all_label : Text
  pub items : List Item
  pub button : Text
  pub is_disabled : Bool

pub data Listing : Type 0 where
  loading no_databases : Listing
  boxes : Boxes → Listing

module _ {B : Type 0} where
  -- `selected.has(db.name)`
  abbrev pub item : Panel B → Text → Item
  item s name = record { label = name; checked = mem name s.selected }

  unfoldable pub shown_boxes : List Text → Panel B → Boxes
  shown_boxes names s = record {
    all_checked = length s.selected == length names;
    all_label = text "Select all (" ++ (show_nat (length names) ++ text ")");
    items = map (item s) names;
    button =
        if is_nil s.selected
        then text "Backup "
        else text "Backup (" ++ (show_nat (length s.selected) ++ text ")");
    is_disabled = is_nil s.selected || s.downloading;
  }

  unfoldable pub listing : Bool → Option (List Text) → Panel B → Listing
  unfolding shown_boxes
  listing true names s = loading
  listing false none s = no_databases
  listing false (some []) s = no_databases
  listing false (some (name ∷ names)) s = boxes (shown_boxes (name ∷ names) s)

  -- A click on a box turns this box and no other.
  pub checked-toggle :
      (name other : Text) (s : Panel B)
      → (item (toggle name s) other).checked
        ≡ (if text_eq other name then not (item s name).checked else (item s other).checked)
  unfolding toggle click_badge
  checked-toggle name other s = mem-click_badge name other s.selected
