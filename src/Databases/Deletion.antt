-- ===== src/Databases/Deletion.antt =====
-- Which databases can be deleted, and what a late answer does to the dialog.
use pgmanager.Common.{
  if_keep, run_keep_when, ◌≡◌, refl, Bool, true, false, not, ◌&&◌, Option, none, some, List, [],
  ◌∷◌, Text, text, text_eq, All, if◌then◌else◌,
}
use pgmanager.Schemas.{Database}
use pgmanager.Confirm
use pgmanager.Confirm.{Page, closed, opened, asked, handle_close, can_confirm, on_confirm}
use pgmanager.Databases.{click_bin, on_answer, Event, bin, dialog, clicked, not_ask, step, steps}

module _ (is_admin : Bool) (P : Text → Type 0) where
  -- If the row is of an unprotected database and the user is an admin, then its name is in `P`.
  abbrev pub Offers : Event → Type 0
  Offers (bin db) = is_admin ≡ true → db.protected ≡ false → P db.name
  Offers (dialog e) = Unit

  abbrev pub TargetIn : Option Text → Type 0
  TargetIn none = Unit
  TargetIn (some name) = P name

  -- The target of the dialog and what has been sent are in `P`.
  abbrev pub IsOffered : Page Text → Type 0
  IsOffered s = TargetIn s.target × All P s.sent

  click_bin-TargetIn : (db : Database) → Offers (bin db) → TargetIn (click_bin is_admin db)
  unfolding click_bin
  click_bin-TargetIn db o = by_tests is_admin db.protected o
    where
      by_tests :
          (a p : Bool)
          → (a ≡ true → p ≡ false → P db.name)
          → TargetIn (if a && not p then some db.name else none)
      by_tests true false h = h refl refl
      by_tests true true h = tt
      by_tests false p h = tt

  asked-IsOffered :
      (t : Option Text) (name : Text) (s : Page Text)
      → P name
      → IsOffered s
      → IsOffered (asked Text t name s)
  unfolding asked
  asked-IsOffered none name s p h = (p, h.1)
  asked-IsOffered (some u) name s p h = h

  clicked-IsOffered :
      (t : Option Text) (s : Page Text) → TargetIn t → IsOffered s → IsOffered (clicked t s)
  unfolding clicked Confirm.step
  clicked-IsOffered none s o h = h
  clicked-IsOffered (some name) s o h = asked-IsOffered s.target name s o h

  on_confirm-IsOffered :
      (t : Option Text) (s : Page Text) → TargetIn t → IsOffered s → IsOffered (on_confirm Text t s)
  unfolding on_confirm
  on_confirm-IsOffered none s o h = h
  on_confirm-IsOffered (some name) s o h = (tt, (o, h.1))

  opened-IsOffered :
      (t : Option Text) (s s' : Page Text)
      → IsOffered s
      → IsOffered s'
      → IsOffered (opened Text t s s')
  unfolding opened
  opened-IsOffered none s s' h k = h
  opened-IsOffered (some u) s s' h k = k

  not_ask-IsOffered :
      (e : Confirm.Event Text) (s : Page Text) → IsOffered s → IsOffered (not_ask e s)
  unfolding not_ask Confirm.step on_answer handle_close
  not_ask-IsOffered (Confirm.ask name) s h = h
  not_ask-IsOffered (Confirm.typed w) s h =
      opened-IsOffered s.target s (record s { confirm_text = w }) h h
  not_ask-IsOffered Confirm.cancel s h =
      opened-IsOffered s.target s (handle_close Text s) h (tt, h.1)
  not_ask-IsOffered Confirm.confirm s h =
      let sent = on_confirm Text s.target s in
      let left = if can_confirm Text s then handle_close Text sent else s in
      let k = on_confirm-IsOffered s.target s h.0 h in
      opened-IsOffered s.target s left h
        (if_keep IsOffered (can_confirm Text s) (handle_close Text sent) s (tt, k.1) h)
  not_ask-IsOffered Confirm.answered s h = (tt, h.1)

  step-IsOffered :
      (e : Event) (s : Page Text) → Offers e → IsOffered s → IsOffered (step is_admin e s)
  unfolding step
  step-IsOffered (bin db) s o h =
      clicked-IsOffered (click_bin is_admin db) s (click_bin-TargetIn db o) h
  step-IsOffered (dialog e) s o h = not_ask-IsOffered e s h

  steps-keep :
      (es : List Event) (s : Page Text)
      → All Offers es
      → IsOffered s
      → IsOffered (steps is_admin es s)
  unfolding steps
  steps-keep = run_keep_when (step is_admin) IsOffered Offers step-IsOffered

  -- Whatever is clicked and typed and whenever the server answers, every deletion that is sent is of
  -- a name in `P`, if `P` holds the names of the unprotected databases whose rows are clicked, as
  -- far as the user is an admin: protected databases are never deleted, and other users delete none.
  pub steps-IsOffered :
      (es : List Event) → All Offers es → All P (steps is_admin es (closed Text)).sent
  unfolding closed
  steps-IsOffered es o = (steps-keep es (closed Text) o (tt, tt)).1

-- If an admin types DELETE for a second database while the deletion of a first is under way, the
-- answer to the first closes the dialog and leaves the text there: then the bin of a third database
-- and a click on "Delete" delete that database, with nothing typed for it.
pub steps-untyped :
    (a b c : Database)
    → a.protected ≡ false
    → b.protected ≡ false
    → c.protected ≡ false
    → (steps true
        (bin a
          ∷ dialog (Confirm.typed (text "DELETE"))
          ∷ dialog Confirm.confirm
          ∷ bin b
          ∷ dialog (Confirm.typed (text "DELETE"))
          ∷ dialog Confirm.answered
          ∷ bin c
          ∷ dialog Confirm.confirm
          ∷ [])
        (closed Text)).sent
      ≡ c.name ∷ a.name ∷ []
unfolding steps step clicked click_bin not_ask Confirm.step on_answer handle_close on_confirm
    can_confirm opened asked closed text text_eq
steps-untyped a b c p q r = rw (p, q, r) refl
