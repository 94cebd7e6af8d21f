-- ===== src/Columns/Edit/Run.antt =====
-- backend/ui/src/components/dialogs/EditColumnDialog.tsx: the loop that sends the statements, and
-- what the dialog does after it.
use pgmanager.Common.{
  ◌≡◌, refl, Option, none, some, List, [], ◌∷◌, ◌++◌, Text, text, Option-cases, inl, inr,
}
use pgmanager.Schemas.{ColumnInfo}
use pgmanager.Ui.{Effect, toast_success, toast_error, close, invalidate}
use pgmanager.Columns.Edit.{Form, Reply, failure, statements, run, run_column, settled, save}

module _ {S : Type 0} (execute : Text → S → S × Reply) where
  -- All of the statements are executed, none fails, and they lead from `s` to `t`.
  abbrev pub Ran : List Text → S → S → Type 0
  Ran [] s t = s ≡ t
  Ran (stmt ∷ stmts) s t = (failure (execute stmt s).1 ≡ none) × Ran stmts (execute stmt s).0 t

  -- `stmt` fails with the message `e` after the statements before it were executed; those behind
  -- it are not executed.
  pub record Stopped (stmts : List Text) (s t : S) (e : Text) : Type 0 where
    pub before : List Text
    pub stmt : Text
    pub after : List Text
    pub middle : S
    pub split : stmts ≡ before ++ stmt ∷ after
    pub ran : Ran before s middle
    pub failed : failure (execute stmt middle).1 ≡ some e
    pub left : (execute stmt middle).0 ≡ t

  abbrev pub Outcome : List Text → S → S × Option Text → Type 0
  Outcome stmts s (t, none) = Ran stmts s t
  Outcome stmts s (t, some e) = Stopped stmts s t e

  Outcome-cons :
      (stmt : Text) (stmts : List Text) (s : S) (r : S × Option Text)
      → failure (execute stmt s).1 ≡ none
      → Outcome stmts (execute stmt s).0 r
      → Outcome (stmt ∷ stmts) s r
  Outcome-cons stmt stmts s (t, none) ok h = (ok, h)
  Outcome-cons stmt stmts s (t, some e) ok h = record {
    before = stmt ∷ h.before;
    stmt = h.stmt;
    after = h.after;
    middle = h.middle;
    split = cc (h.split);
    ran = (ok, h.ran);
    failed = h.failed;
    left = h.left;
  }

  pub run-Outcome : (stmts : List Text) (s : S) → Outcome stmts s (run execute stmts s)
  unfolding run
  run-Outcome [] s = refl
  run-Outcome (stmt ∷ stmts) s = elim (Option-cases (failure (execute stmt s).1)) [
    | inl ok ↦
        rw (ok, run)
          (Outcome-cons stmt stmts s (run execute stmts (execute stmt s).0) ok
            (run-Outcome stmts (execute stmt s).0))
    | inr (e, failed) ↦
        rw (failed, run)
          (record {
            before = [];
            stmt = stmt;
            after = stmts;
            middle = s;
            split = refl;
            ran = refl;
            failed = failed;
            left = refl;
          })
  ]

  -- What a save may come to, by the error that it ends with.
  abbrev pub Saved : Text → Text → List Text → S → S → Option Text → List Effect → Type 0
  Saved db table stmts s t none effects =
      Ran stmts s t
      × (effects
          ≡ toast_success (text "Column updated")
            ∷ close
            ∷ invalidate (text "columns" ∷ db ∷ table ∷ [])
            ∷ [])
  Saved db table stmts s t (some e) effects = Stopped stmts s t e × (effects ≡ toast_error e ∷ [])

  Saved-of_outcome :
      (db table : Text) (stmts : List Text) (s : S) (r : S × Option Text)
      → Outcome stmts s r
      → Saved db table stmts s r.0 r.1 (settled execute db table r.1)
  unfolding settled
  Saved-of_outcome db table stmts s (t, none) h = (h, refl)
  Saved-of_outcome db table stmts s (t, some e) h = (h, refl)

  -- "Save Changes" either executes all the statements, says so, closes the dialog and has the
  -- columns fetched again; or it stops at the first statement that fails and only shows that error:
  -- what the statements before it did stays done, the statements behind it are not sent, the dialog
  -- stays open and the cached columns are not invalidated.
  pub save-Saved :
      (db table : Text) (c : ColumnInfo) (form : Form) (s : S)
      → (error : Option Text) × Saved db table
          (statements table c form)
          s
          (save execute db table (some c) form s).0
          error
          (save execute db table (some c) form s).1
  unfolding save run_column
  save-Saved db table c form s =
      let stmts = statements table c form in
      (
        (run execute stmts s).1,
        Saved-of_outcome db table stmts s (run execute stmts s) (run-Outcome stmts s),
      )
