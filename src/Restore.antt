-- ===== src/Restore.antt =====
-- backend/ui/src/components/backup/RestoreTab.tsx: inspecting a backup file and restoring it.
pub mod Answers
pub mod Shown
use pgmanager.Common.{
  run, ℕ, Bool, true, false, ◌&&◌, Option, none, some, List, [], ◌∷◌, ◌++◌, Text, text, is_empty,
  is_some, ◌==◌, if◌then◌else◌,
}
use pgmanager.Csv.{join}
use pgmanager.Api.{ApiError}

-- `BackupInspectResult`, of which only the name of the database is used outside the rendering.
pub record Inspection : Type 0 where
  pub database : Text
  pub format : Text
  pub size : ℕ

pub data Message : Type 0 where
  success error : Text → Message

-- `${apiErr.message}\n\nExisting tables: ${apiErr.tables.join(", ")}`, or the message alone.
unfoldable pub restore_error : ApiError → Text
unfolding join
restore_error e = elim e.tables [
  | none ↦ plain e.message
  | some tables ↦
      if e.status == 409
      then e.message ++ (10 ∷ 10 ∷ text "Existing tables: " ++ join (text ", ") tables)
      else plain e.message
]
  where
    plain : Text → Text
    plain m = if is_empty m then text "Restore failed" else m

module _ (F : Type 0) where
  pub record Restore : Type 0 where
    pub file : Option F
    pub inspected : Option Inspection
    pub target_db : Text
    pub drop_first : Bool
    pub message : Option Message

  -- The state at first, and what `handleReset` sets.
  unfoldable pub initial : Restore
  initial = record {
    file = none;
    inspected = none;
    target_db = [];
    drop_first = false;
    message = none;
  }

  -- `onSuccess` and `onError` of `inspectMutation`
  unfoldable pub on_inspected : Inspection → Restore → Restore
  on_inspected i s = record s {
    inspected = some i;
    target_db = if not_empty i.database && is_empty s.target_db then i.database else s.target_db;
    message = none;
  }
    where
      not_empty : Text → Bool
      not_empty [] = false
      not_empty (c ∷ t) = true

  unfoldable pub on_inspect_error : Text → Restore → Restore
  on_inspect_error e s = record s { inspected = none; message = some (error e) }

  -- `onSuccess` and `onError` of `restoreMutation`
  unfoldable pub on_restored : Text → Restore → Restore
  on_restored m s = record s { message = some (success m) }

  unfoldable pub on_restore_error : ApiError → Restore → Restore
  unfolding restore_error
  on_restore_error e s = record s { message = some (error (restore_error e)) }

  -- `handleFileChange`, which also has the file inspected
  unfoldable pub handle_file_change : Option F → Restore → Restore
  handle_file_change none s = s
  handle_file_change (some f) s = record s { file = some f; message = none; inspected = none }

  -- `handleRestore`: what `restoreBackup` is called with.
  unfoldable pub handle_restore : Restore → Option (F × Text × Bool)
  handle_restore s = elim s.file [
    | none ↦ none
    | some f ↦ if is_empty s.target_db then none else some (f, s.target_db, s.drop_first)
  ]

  -- A click on the button, which is there only with a result of the inspection.
  unfoldable pub click_restore : Restore → Option (F × Text × Bool)
  unfolding handle_restore
  click_restore s = if is_some s.inspected then handle_restore s else none

  -- The inputs for the target and the switch are there only with a result of the inspection, too.
  pub data Event : Type 0 where
    file_change : Option F → Event
    inspection : Inspection → Event
    inspect_error restored set_target : Text → Event
    restore_failed : ApiError → Event
    set_drop : Bool → Event
    reset : Event

  unfoldable pub step : Event → Restore → Restore
  unfolding initial on_inspected on_inspect_error on_restored on_restore_error handle_file_change
  step (file_change f) s = handle_file_change f s
  step (inspection i) s = on_inspected i s
  step (inspect_error e) s = on_inspect_error e s
  step (restored m) s = on_restored m s
  step (restore_failed e) s = on_restore_error e s
  step (set_target t) s = if is_some s.inspected then record s { target_db = t } else s
  step (set_drop b) s = if is_some s.inspected then record s { drop_first = b } else s
  step reset s = initial

  unfoldable pub steps : List Event → Restore → Restore
  unfolding step
  steps es s = run step es s
