-- ===== src/Users/Panel/Targets.antt =====
-- Whom the dialogs of the page are for.
use pgmanager.Common.{run_keep, ◌≡◌, refl, true, not, ◌||◌, List, [], ◌∷◌, is_some}
use pgmanager.Confirm
use pgmanager.Users.Panel.{
  Half, mounted, on_answer, Event, click_create, click_edit, click_reset, close_create, close_edit,
  close_reset, close_creds, created, deletion, step, steps,
}

module _ {U C : Type 0} where
  -- An open dialog has the user that it is for.
  abbrev pub HasTargets : Half U C → Type 0
  HasTargets s =
      ((not s.edit_open || is_some s.edit_target) ≡ true)
      × ((not s.reset_open || is_some s.reset_target) ≡ true)

  step-HasTargets : (e : Event U C) (s : Half U C) → HasTargets s → HasTargets (step U C e s)
  unfolding step
  step-HasTargets (click_edit u) s h = (refl, h.1)
  step-HasTargets (click_reset u) s h = (h.0, refl)
  step-HasTargets close_edit s h = (refl, h.1)
  step-HasTargets close_reset s h = (h.0, refl)
  step-HasTargets click_create s h = h
  step-HasTargets close_create s h = h
  step-HasTargets close_creds s h = h
  step-HasTargets (created c) s h = h
  step-HasTargets (deletion e) s h = h

  steps-keep : (es : List (Event U C)) (s : Half U C) → HasTargets s → HasTargets (steps U C es s)
  unfolding steps
  steps-keep = run_keep (step U C) HasTargets step-HasTargets

  -- After any clicks on the rows and in the dialogs, the dialogs for editing a user and for resetting
  -- a password have a user whenever they are open.
  pub steps-HasTargets : (es : List (Event U C)) → HasTargets (steps U C es (mounted U C))
  unfolding mounted
  steps-HasTargets es = steps-keep es (mounted U C) (refl, refl)

  -- The events of the confirmation among those of the page.
  abbrev pub deletions : List (Event U C) → List (Confirm.Event U)
  deletions [] = []
  deletions (deletion e ∷ es) = e ∷ deletions es
  deletions (e ∷ es) = deletions es

  -- What the page deletes depends on what happens in the confirmation alone: the other dialogs,
  -- whatever is done with them in between, change nothing of it.
  pub steps-deletions :
      (es : List (Event U C)) (s : Half U C)
      → (steps U C es s).deletion ≡ Confirm.steps U (on_answer U C) (deletions es) s.deletion
  unfolding steps step Confirm.steps
  steps-deletions [] s = refl
  steps-deletions (deletion e ∷ es) s = steps-deletions es (step U C (deletion e) s)
  steps-deletions (click_create ∷ es) s = steps-deletions es (step U C click_create s)
  steps-deletions (click_edit u ∷ es) s = steps-deletions es (step U C (click_edit u) s)
  steps-deletions (click_reset u ∷ es) s = steps-deletions es (step U C (click_reset u) s)
  steps-deletions (close_create ∷ es) s = steps-deletions es (step U C close_create s)
  steps-deletions (close_edit ∷ es) s = steps-deletions es (step U C close_edit s)
  steps-deletions (close_reset ∷ es) s = steps-deletions es (step U C close_reset s)
  steps-deletions (close_creds ∷ es) s = steps-deletions es (step U C close_creds s)
  steps-deletions (created c ∷ es) s = steps-deletions es (step U C (created c) s)
