-- ===== src/Backups.antt =====
-- backend/ui/src/routes/Backups.tsx and components/backup/BackupDatabaseTab.tsx: the tabs, and the
-- backup of whole databases.
pub mod Downloads
pub mod Tables
pub mod Listing
use pgmanager.Common.{
  run, ℕ, suc, Bool, true, false, not, ◌||◌, Option, none, some, List, [], ◌∷◌, ◌++◌, map, Text,
  text, is_nil, length, ◌==◌, filter_by, if◌then◌else◌,
}
use pgmanager.Auth.{is_admin}
use pgmanager.Schemas.{AuthUser}
use pgmanager.Selection.{mem, without, set_from}

pub data Tab : Type 0 where
  database tables restore : Tab

admin_only : Tab → Bool
admin_only database = false
admin_only tables = false
admin_only restore = true

unfoldable pub shown_tabs : Option AuthUser → List Tab
unfolding admin_only
shown_tabs user =
    filter_by (λ t. not (admin_only t) || is_admin user) (database ∷ tables ∷ restore ∷ [])

-- A file that the browser saves; `B` are the contents.
pub record Download (B : Type 0) : Type 0 where
  pub blob : B
  pub file_name : Text

-- The tab; `selected` is the set in the order of its insertions, and `waiting` are the databases that
-- the loop of `handleBackup` has still to save, of which the first has been asked for.
pub record Panel (B : Type 0) : Type 0 where
  pub selected : List Text
  pub waiting : List Text
  pub downloading : Bool
  pub downloads : List (Download B)

-- What can happen while the loop runs, in which the button is disabled.
pub data Event (B : Type 0) : Type 0 where
  toggles : Text → Event B
  selects_all : Option (List Text) → Event B
  answers : Option B → Text → Event B

module _ {B : Type 0} where
  unfoldable pub toggle : Text → Panel B → Panel B
  toggle name s = record s {
    selected = if mem name s.selected then without name s.selected else s.selected ++ name ∷ [];
  }

  -- `selectAll`, with the names of the databases that are loaded
  unfoldable pub select_all : Option (List Text) → Panel B → Panel B
  select_all none s = s
  select_all (some names) s = record s {
    selected = if length s.selected == length names then [] else set_from [] names;
  }

  -- `handleBackup` up to its first request; the button is disabled while the loop runs, which goes over
  -- the set that is selected now.
  unfoldable pub click_backup : Panel B → Panel B
  click_backup s =
      if is_nil s.selected || s.downloading
      then s
      else record s { downloading = true; waiting = s.selected }

  -- `${dbName}_${timestamp}.dump`
  abbrev pub file : Text → B → Text → Download B
  file name b stamp = record { blob = b; file_name = name ++ (text "_" ++ (stamp ++ text ".dump")) }

  -- The next round of the loop, or its end, after which comes `finally`.
  next : List Text → Panel B → Panel B
  next [] s = record s { waiting = []; downloading = false }
  next (name ∷ names) s = record s { waiting = name ∷ names }

  settled : List Text → Option B → Text → Panel B → Panel B
  unfolding next
  settled [] answer stamp s = s
  settled (name ∷ names) none stamp s = next [] s
  settled (name ∷ names) (some b) stamp s =
      next names (record s { downloads = s.downloads ++ file name b stamp ∷ [] })

  -- The answer of the server to the request of the loop, `none` an error, and the time as it is written
  -- then.
  unfoldable pub on_answer : Option B → Text → Panel B → Panel B
  unfolding settled
  on_answer answer stamp s = settled s.waiting answer stamp s

  unfoldable pub step : Event B → Panel B → Panel B
  unfolding toggle select_all on_answer
  step (toggles name) s = toggle name s
  step (selects_all names) s = select_all names s
  step (answers answer stamp) s = on_answer answer stamp s

  unfoldable pub steps : List (Event B) → Panel B → Panel B
  unfolding step
  steps es s = run step es s
