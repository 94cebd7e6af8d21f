-- ===== src/Tests/Selection.antt =====
-- The selections and the backups of tables.
use mathlib.Core.Quot
use mathlib.Core.List.Perm
use pgmanager.Common.{refl, false, Option, none, some, List, [], ◌∷◌, Text, text}
use pgmanager.Selection.{choose_db, toggle}
use pgmanager.Backups.Tables.{Tab, TabEvent, chooses, clicks_backup, answered, tab_steps}
use pgmanager.Backups.Tables.Saved.{IsConsistent, tab_steps-IsConsistent}

abbrev shop : Text
shop = text "shop"

abbrev crm : Text
crm = text "crm"

-- A server that has a backup of one database.
abbrev backup : Text → List Text → Option Text
backup db [] = none
backup db (t ∷ ts) = some t

abbrev tab : Tab backup
tab = record {
  choice = record { selected_db = []; selected_tables = [] };
  downloading = false;
  requested = none;
  downloads = [];
}

-- The database is changed while the backup runs.
abbrev events : List (TabEvent backup)
events =
    chooses (choose_db shop)
    ∷ chooses (toggle (text "t"))
    ∷ clicks_backup
    ∷ chooses (choose_db crm)
    ∷ answered (text "now")
    ∷ []

tab_steps-IsConsistent_example : IsConsistent backup (tab_steps backup events tab)
tab_steps-IsConsistent_example = tab_steps-IsConsistent backup events tab (refl, tt, tt)
