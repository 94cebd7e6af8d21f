-- ===== src/Restore/Answers.antt =====
-- What the answers of the server do to the form, also when they are late.
use pgmanager.Common.{
  ◌≡◌, refl, ap, ◌∙◌, true, false, not, ◌&&◌, ◌||◌, Option, none, some, List, [], ◌∷◌, ◌++◌, Text,
  text, is_empty, is_some, arith,
}
use pgmanager.Csv.{join}
use pgmanager.Api.{BackupError, restore_error_of, restore_failure}
use pgmanager.Restore.{
  Inspection, restore_error, Restore, initial, on_inspected, on_inspect_error, on_restored,
  on_restore_error, handle_file_change, handle_restore, click_restore, Event, file_change,
  inspection, inspect_error, restored, set_target, restore_failed, set_drop, reset, step, steps,
}

module _ {F : Type 0} where
  -- Without a file there is no target and no result of an inspection.
  abbrev pub IsFresh : Restore F → Type 0
  IsFresh s = (is_some s.file || (is_empty s.target_db && not (is_some s.inspected))) ≡ true

  -- The result of an inspection comes while a file is chosen.
  abbrev pub IsInTime : Event F → Restore F → Type 0
  IsInTime (inspection i) s = is_some s.file ≡ true
  IsInTime _ s = Unit

  abbrev pub AreInTime : List (Event F) → Restore F → Type 0
  AreInTime [] s = Unit
  AreInTime (e ∷ es) s = IsInTime e s × AreInTime es (step F e s)

  step-IsFresh : (e : Event F) (s : Restore F) → IsInTime e s → IsFresh s → IsFresh (step F e s)
  unfolding step initial on_inspected on_inspect_error on_restored on_restore_error
      handle_file_change is_empty
  step-IsFresh (file_change none) s t h = h
  step-IsFresh (file_change (some f)) s t h = refl
  step-IsFresh (inspection i) s t h = ground (arith, t)
  step-IsFresh (inspect_error e) s t h = ground (arith, h)
  step-IsFresh (restored m) s t h = h
  step-IsFresh (restore_failed e) s t h = h
  step-IsFresh (set_target d) s t h = ground (arith, h)
  step-IsFresh (set_drop b) s t h = ground (arith, h)
  step-IsFresh reset s t h = refl

  steps-keep :
      (es : List (Event F)) (s : Restore F) → AreInTime es s → IsFresh s → IsFresh (steps F es s)
  unfolding steps
  steps-keep [] s t h = h
  steps-keep (e ∷ es) s t h = steps-keep es (step F e s) t.1 (step-IsFresh e s t.0 h)

  -- If each result of an inspection comes while a file is chosen, then in every state without a file
  -- the target and the result are empty, so that the next file starts afresh.
  pub steps-IsFresh :
      (es : List (Event F)) → AreInTime es (initial F) → IsFresh (steps F es (initial F))
  unfolding initial is_empty
  steps-IsFresh es t = steps-keep es (initial F) t refl

  -- If the form is reset before the inspection of its file is answered, the late answer sets the
  -- target, and a second file whose inspection succeeds is restored into the database of the first.
  pub steps-late_inspection :
      (f g : F) (i j : Inspection)
      → is_empty i.database ≡ false
      → click_restore F (
          steps F
            (file_change (some f) ∷ reset ∷ inspection i ∷ file_change (some g) ∷ inspection j ∷ [])
            (initial F))
        ≡ some (g, i.database, false)
  unfolding steps step initial on_inspected handle_file_change handle_restore click_restore is_empty
  steps-late_inspection f g i j h = ground (arith, h)

conflict_error :
    {J : Type 0} (error_of : J → Option BackupError) (j : J) (code m : Text) (tables : List Text)
    → error_of j ≡ some (record { error = code; message = some m; tables = some tables })
    → is_empty m ≡ false
    → restore_failure error_of (record { status = 409; json = some j })
      ≡ record { message = m; status = 409; tables = some tables }
unfolding restore_failure
conflict_error error_of j code m tables e h = ap (restore_error_of 409) e ∙ rw h refl

-- If the server refuses a restoration with status 409, a message that is not empty and the
-- tables that exist, the form shows that message and the names of these tables.
pub restore_error-conflict :
    {J : Type 0} (error_of : J → Option BackupError) (j : J) (code m : Text) (tables : List Text)
    → error_of j ≡ some (record { error = code; message = some m; tables = some tables })
    → is_empty m ≡ false
    → restore_error (restore_failure error_of (record { status = 409; json = some j }))
      ≡ m ++ (10 ∷ 10 ∷ text "Existing tables: " ++ join (text ", ") tables)
unfolding restore_error
restore_error-conflict error_of j code m tables e h =
    ap restore_error (conflict_error error_of j code m tables e h)
