-- ===== src/Backups/Tables.antt =====
-- backend/ui/src/components/backup/BackupTablesTab.tsx: the backup of the chosen tables, while the
-- choice can go on.
pub mod Saved
use pgmanager.Common.{
  run, Bool, true, false, ◌||◌, Option, none, some, List, [], ◌∷◌, ◌++◌, Text, text, is_nil,
  if◌then◌else◌,
}
use pgmanager.Selection.{Choice, Event, step, handle_backup}
use pgmanager.Backups.{Download}

-- `backup` is what the server returns for a database and some tables, `none` an error that it raises.
module _ {B : Type 0} (backup : Text → List Text → Option B) where
  -- `requested` is what the `backupDatabase` that is running was called with.
  pub record Tab : Type 0 where
    pub choice : Choice
    pub downloading : Bool
    pub requested : Option (Text × List Text)
    pub downloads : List (Download B)

  -- The request of `handleBackup`, if it comes to one.
  unfoldable pub request : Option (Text × List Text) → Tab → Tab
  request none s = s
  request (some r) s = record s { downloading = true; requested = some r }

  -- `handleBackup` up to its request; the button is disabled while it runs or nothing is selected.
  unfoldable pub click_backup : Tab → Tab
  unfolding request handle_backup
  click_backup s =
      if is_nil s.choice.selected_tables || s.downloading
      then s
      else request (handle_backup s.choice) s

  -- `downloadBlob` with what was returned.
  unfoldable pub download_blob : Text → Option B → List (Download B)
  download_blob file_name none = []
  download_blob file_name (some b) = record { blob = b; file_name = file_name } ∷ []

  -- What `handleBackup` saves, for the database and tables that it began with.
  unfoldable pub saved : Text → Text × List Text → List (Download B)
  unfolding download_blob
  saved timestamp (db, tables) =
      download_blob (db ++ (text "_tables_" ++ (timestamp ++ text ".dump"))) (backup db tables)

  -- The rest of `handleBackup`, when the server has answered what runs.
  unfoldable pub settle : Text → Option (Text × List Text) → Tab → Tab
  unfolding saved
  settle timestamp none s = s
  settle timestamp (some r) s = record s {
    downloading = false;
    requested = none;
    downloads = s.downloads ++ saved timestamp r;
  }

  pub data TabEvent : Type 0 where
    chooses : Event → TabEvent
    clicks_backup : TabEvent
    answered : Text → TabEvent

  unfoldable pub tab_step : TabEvent → Tab → Tab
  unfolding click_backup settle
  tab_step (chooses e) s = record s { choice = step e s.choice }
  tab_step clicks_backup s = click_backup s
  tab_step (answered timestamp) s = settle timestamp s.requested s

  unfoldable pub tab_steps : List TabEvent → Tab → Tab
  unfolding tab_step
  tab_steps es s = run tab_step es s
