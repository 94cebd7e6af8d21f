-- ===== src/Restore/Shown.antt =====
-- backend/ui/src/components/backup/RestoreTab.tsx: what is shown of a form. `tables` are those of the
-- result of the inspection, a schema and a name each.
use pgmanager.Common.{
  ◌≡◌, refl, ℕ, Bool, true, false, ◌||◌, Option, none, some, List, [], ◌++◌, map, Text, text, any,
  length, text_eq, is_empty, is_some, if◌then◌else◌,
}
use pgmanager.Restore.{Restore, Inspection, step, set_target}

-- The card of the result; `size` is the text of a size.
pub record Card : Type 0 where
  pub database : Text
  pub format : Text
  pub table_count : ℕ
  pub size : Text
  pub names : List Text

unfoldable pub card : (ℕ → Text) → List (Text × Text) → Inspection → Card
card size tables i = record {
  database = if is_empty i.database then text "unknown" else i.database;
  format = i.format;
  table_count = length tables;
  size = size i.size;
  names = map (λ t. t.0 ++ (text "." ++ t.1)) tables;
}

-- The inputs below the card: the label of the choice among the databases and what can be chosen, the
-- text of the input for a new one, the switch, and whether the button "Restore" can be clicked.
pub record Target : Type 0 where
  pub label : Text
  pub options : List Text
  pub new_name : Text
  pub drop_first : Bool
  pub is_disabled : Bool

module _ (F : Type 0) (databases : List Text) where
  unfoldable pub target : Bool → Restore F → Target
  target is_pending s = record {
    label = if is_empty s.target_db then text "Select target database" else s.target_db;
    options = databases;
    new_name = if any (λ d. text_eq d s.target_db) databases then [] else s.target_db;
    drop_first = s.drop_first;
    is_disabled = is_empty s.target_db || is_pending;
  }

  -- The inputs are there with a result of the inspection.
  unfoldable pub shown_target : Bool → Restore F → Option Target
  unfolding target
  shown_target is_pending s = if is_some s.inspected then some (target is_pending s) else none

  -- A name typed for a new database is the text of the input as long as no database has it.
  pub target-typed :
      (is_pending : Bool) (t : Text) (s : Restore F)
      → is_some s.inspected ≡ true
      → any (λ d. text_eq d t) databases ≡ false
      → (target is_pending (step F (set_target t) s)).new_name ≡ t
  unfolding target step
  target-typed is_pending t s i free = rw (i, free) refl
