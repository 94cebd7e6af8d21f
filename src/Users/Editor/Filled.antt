-- ===== src/Users/Editor/Filled.antt =====
-- What an opened form shows.
use pgmanager.Common.{
  run-append, ℕ, ◌≡◌, ◌≢◌, refl, ap, ◌∙◌, true, Option, none, some, List, [], ◌∷◌, ◌++◌, ◌==◌,
  if◌then◌else◌, arith,
}
use pgmanager.Users.Editor.{
  EditForm, Row, Editor, mounted, is_other, Event, pencil, input, close, step, steps,
}

module _ (E : EditForm) where
  -- The row that the dialog had last is not that object.
  abbrev pub IsNew : Option (Row E.U) → Row E.U → Type 0
  IsNew none r = Unit
  IsNew (some r') r = r'.ref ≢ r.ref

  pub other_of_new : (o : Option (Row E.U)) (r : Row E.U) → IsNew o r → is_other E o r ≡ true
  unfolding is_other
  other_of_new none r h = refl
  other_of_new (some r') r h = ground arith

  pub steps-append :
      (es fs : List (Event E)) (s : Editor E) → steps E (es ++ fs) s ≡ steps E fs (steps E es s)
  unfolding steps
  steps-append = run-append (step E)

  pub pencil-fill :
      (s : Editor E) (r : Row E.U)
      → IsNew s.row r
      → (step E (pencil r) s).form ≡ E.fill r.user s.form
  unfolding step
  pencil-fill s r h = rw (other_of_new s.row r h) refl

  -- After anything that was opened, typed and closed, the pencil of a row that is another object than
  -- the one the dialog had last shows that row's user.
  pub steps-pencil :
      (es : List (Event E)) (r : Row E.U)
      → IsNew (steps E es (mounted E)).row r
      → (steps E (es ++ pencil r ∷ []) (mounted E)).form
        ≡ E.fill r.user (steps E es (mounted E)).form
  unfolding steps
  steps-pencil es r h =
      ap (λ s. s.form) (steps-append es (pencil r ∷ []) (mounted E))
      ∙ pencil-fill (steps E es (mounted E)) r h

  same_ref : (n : ℕ) → (n == n) ≡ true
  same_ref n = ground arith

  pencil_again :
      (s : Editor E) (r : Row E.U) (i : E.I)
      → IsNew s.row r
      → (steps E (pencil r ∷ input i ∷ close ∷ pencil r ∷ []) s).form
        ≡ E.change i (E.fill r.user s.form)
  unfolding steps step is_other
  pencil_again s r i h =
      let e : (if is_other E s.row r then E.fill r.user s.form else s.form) ≡ E.fill r.user s.form =
        pencil-fill s r h in
      rw (same_ref r.ref) (ap (E.change i) e)

  -- If a row is opened after any other, something is typed, the dialog is closed and the same row is
  -- opened again, the form shows what was typed and given up, not the row's user.
  pub steps-pencil_again :
      (es : List (Event E)) (r : Row E.U) (i : E.I)
      → IsNew (steps E es (mounted E)).row r
      → (steps E (es ++ pencil r ∷ input i ∷ close ∷ pencil r ∷ []) (mounted E)).form
        ≡ E.change i (E.fill r.user (steps E es (mounted E)).form)
  steps-pencil_again es r i h =
      ap (λ s. s.form) (steps-append es (pencil r ∷ input i ∷ close ∷ pencil r ∷ []) (mounted E))
      ∙ pencil_again (steps E es (mounted E)) r i h
