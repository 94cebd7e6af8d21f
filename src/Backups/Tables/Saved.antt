-- ===== src/Backups/Tables/Saved.antt =====
-- What the backup of tables saves.
use pgmanager.Common.{
  run_keep, ◌≡◌, refl, false, ◌||◌, Option, none, some, is_some, List, ◌++◌, Text, text, is_nil,
  is_empty, length, leb, All, All-append, arith, Bool-cases, Option-cases, inl, inr,
}
use pgmanager.Selection.{Choice, handle_backup}
use pgmanager.Backups.{Download}
use pgmanager.Backups.Tables.{
  download_blob, Tab, click_backup, saved, settle, request, TabEvent, chooses, clicks_backup,
  answered, tab_step, tab_steps,
}

-- A request of a database and of some of its tables.
abbrev pub IsRequest : Text × List Text → Type 0
IsRequest r = (is_empty r.0 ≡ false) × (is_nil r.1 ≡ false)

module _ {B : Type 0} (backup : Text → List Text → Option B) where
  -- A file with what the server returned for a database and some of its tables, named for the database.
  abbrev pub IsSaved : Download B → Type 0
  IsSaved d =
      (r : Text × List Text) × IsRequest r
      × (backup r.0 r.1 ≡ some d.blob)
      × ((timestamp : Text) × (d.file_name
            ≡ r.0 ++ (text "_tables_" ++ (timestamp ++ text ".dump"))))

  -- The request that runs; the button is disabled exactly while one runs.
  abbrev pub IsRunning : Option (Text × List Text) → Type 0
  IsRunning none = Unit
  IsRunning (some r) = IsRequest r

  abbrev pub IsConsistent : Tab backup → Type 0
  IsConsistent s =
      (s.downloading ≡ is_some s.requested) × IsRunning s.requested × All IsSaved s.downloads

  handle_backup-IsRunning :
      (c : Choice) → is_nil c.selected_tables ≡ false → IsRunning (handle_backup c)
  unfolding handle_backup
  handle_backup-IsRunning c h =
      elim (Bool-cases (is_empty c.selected_db || leb (length c.selected_tables) 0)) [
        | inl e ↦ rw e tt
        | inr e ↦ rw e (ground (arith, e), h)
      ]

  request-IsConsistent :
      (r : Option (Text × List Text)) (s : Tab backup)
      → IsRunning r
      → IsConsistent s
      → IsConsistent (request backup r s)
  unfolding request
  request-IsConsistent none s k h = h
  request-IsConsistent (some r) s k h = (refl, k, h.2)

  click_backup-IsConsistent :
      (s : Tab backup) → IsConsistent s → IsConsistent (click_backup backup s)
  unfolding click_backup
  click_backup-IsConsistent s h =
      elim (Bool-cases (is_nil s.choice.selected_tables || s.downloading)) [
        | inl e ↦ rw e h
        | inr e ↦ rw e (
            request-IsConsistent (handle_backup s.choice) s
              (handle_backup-IsRunning s.choice (ground (arith, e))) h)
      ]

  saved-IsSaved : (t : Text) (r : Text × List Text) → IsRequest r → All IsSaved (saved backup t r)
  unfolding saved download_blob
  saved-IsSaved t r k = elim (Option-cases (backup r.0 r.1)) [
    | inl e ↦ rw (e, All) tt
    | inr (b, e) ↦ rw (e, All) ((r, k, e, (t, refl)), tt)
  ]

  settle-IsConsistent :
      (t : Text) (r : Option (Text × List Text)) (s : Tab backup)
      → IsRunning r
      → IsConsistent s
      → IsConsistent (settle backup t r s)
  unfolding settle
  settle-IsConsistent t none s k h = h
  settle-IsConsistent t (some r) s k h =
      (refl, tt, All-append IsSaved s.downloads (saved backup t r) h.2 (saved-IsSaved t r k))

  tab_step-IsConsistent :
      (e : TabEvent backup) (s : Tab backup) → IsConsistent s → IsConsistent (tab_step backup e s)
  unfolding tab_step
  tab_step-IsConsistent (chooses e) s h = h
  tab_step-IsConsistent clicks_backup s h = click_backup-IsConsistent s h
  tab_step-IsConsistent (answered t) s h = settle-IsConsistent t s.requested s h.1 h

  -- Whatever is chosen, clicked and answered, in whatever order: the flag is set exactly while a request
  -- runs, a request is of a database and at least one table, and every saved file holds what the
  -- server returned for such a request and is named for the database of that request, not for one that
  -- was chosen since.
  pub tab_steps-IsConsistent :
      (es : List (TabEvent backup)) (s : Tab backup)
      → IsConsistent s
      → IsConsistent (tab_steps backup es s)
  unfolding tab_steps
  tab_steps-IsConsistent = run_keep (tab_step backup) IsConsistent tab_step-IsConsistent
