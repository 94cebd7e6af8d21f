-- ===== src/Users/ResetAuth/Owned.antt =====
-- Whose password is shown.
use pgmanager.Common.{
  if_keep, ◌≡◌, refl, Bool, true, false, not, ◌&&◌, Option, none, some, List, [], ◌∷◌, Text,
  is_some, if◌then◌else◌, arith,
}
use pgmanager.Users.ResetAuth.{
  Payload, Dialog, mounted, handle_close, submit_for, has_form, Event, opened, typed, submit,
  closed, refused, answered, answer_to, step, steps,
}

module _ (reset : Payload → Text) where
  -- The dialog is closed only while no request is under way.
  abbrev pub is_patient : List Event → Dialog → Bool
  is_patient [] s = true
  is_patient (closed ∷ es) s =
      let rest = is_patient es (step reset closed s) in not (is_some s.pending) && rest
  is_patient (e ∷ es) s = is_patient es (step reset e s)

  -- A request under way is for the user of the open dialog.
  abbrev OwnsPending : Bool → Option Text → Option Payload → Type 0
  OwnsPending is_open user none = Unit
  OwnsPending is_open user (some p) = (is_open ≡ true) × (user ≡ some p.username)

  -- A password that is shown is the one that the server gave to the user of the open dialog.
  abbrev pub OwnsResult : Bool → Option Text → Option Text → Type 0
  OwnsResult is_open user none = Unit
  OwnsResult is_open user (some w) =
      (is_open ≡ true) × ((p : Payload) × ((user ≡ some p.username) × (w ≡ reset p)))

  abbrev IsOwned : Dialog → Type 0
  IsOwned s = OwnsPending s.is_open s.user s.pending × OwnsResult s.is_open s.user s.result_password

  -- A closed dialog owns nothing, so it can be opened for anyone.
  reopened_pending :
      (u v : Option Text) (o : Option Payload) → OwnsPending false u o → OwnsPending true v o
  reopened_pending u v none h = tt
  reopened_pending u v (some p) h = ground arith

  reopened_result :
      (u v : Option Text) (o : Option Text) → OwnsResult false u o → OwnsResult true v o
  reopened_result u v none h = tt
  reopened_result u v (some w) h = absurd (ground (arith, h.0))

  opened-IsOwned :
      (b : Bool) (u : Text) (s : Dialog)
      → IsOwned (record s { is_open = b })
      → IsOwned (if b then record s { is_open = b } else record s { is_open = true; user = some u })
  opened-IsOwned true u s h = h
  opened-IsOwned false u s h = (
    reopened_pending s.user (some u) s.pending h.0,
    reopened_result s.user (some u) s.result_password h.1,
  )

  submit_for-IsOwned :
      (u : Option Text) (s : Dialog)
      → s.is_open ≡ true
      → IsOwned (record s { user = u })
      → IsOwned (submit_for u (record s { user = u }))
  unfolding submit_for
  submit_for-IsOwned none s e h = h
  submit_for-IsOwned (some name) s e h = ((e, refl), h.1)

  submit-IsOwned :
      (b g : Bool) (s : Dialog)
      → let t : Dialog = record s { is_open = b } in
        IsOwned t → IsOwned (if (b && g) && not (is_some s.pending) then submit_for s.user t else t)
  submit-IsOwned true g s h =
      let t : Dialog = record s { is_open = true } in
      if_keep IsOwned (g && not (is_some s.pending)) (submit_for s.user t) t
        (submit_for-IsOwned s.user t refl h) h
  submit-IsOwned false g s h = h

  closed-IsOwned :
      (o : Option Payload) (s : Dialog)
      → not (is_some o) ≡ true
      → IsOwned (record s { pending = o })
      → let t : Dialog = record s { pending = o } in
        IsOwned (if s.is_open then handle_close t else t)
  unfolding handle_close
  closed-IsOwned none s k h =
      let t : Dialog = record s { pending = none } in
      if_keep IsOwned s.is_open (record t { is_open = false; input = []; result_password = none }) t
        (tt, tt) h
  closed-IsOwned (some p) s k h = absurd (ground (arith, k))

  answer_to-IsOwned :
      (o : Option Payload) (s : Dialog)
      → IsOwned (record s { pending = o })
      → IsOwned (answer_to reset o (record s { pending = o }))
  unfolding answer_to
  answer_to-IsOwned none s h = h
  answer_to-IsOwned (some p) s h = (tt, (h.0.0, (p, (h.0.1, refl))))

  steps-IsOwned :
      (es : List Event) (s : Dialog)
      → is_patient es s ≡ true
      → IsOwned s
      → IsOwned (steps reset es s)
  unfolding steps step has_form
  steps-IsOwned [] s k h = h
  steps-IsOwned (opened u ∷ es) s k h =
      steps-IsOwned es (step reset (opened u) s) k (opened-IsOwned s.is_open u s h)
  steps-IsOwned (typed w ∷ es) s k h = steps-IsOwned es (step reset (typed w) s) k (
      if_keep IsOwned (s.is_open && not (is_some s.result_password)) (record s { input = w }) s h h)
  steps-IsOwned (submit ∷ es) s k h =
      steps-IsOwned es (step reset submit s) k
        (submit-IsOwned s.is_open (not (is_some s.result_password)) s h)
  steps-IsOwned (refused ∷ es) s k h = steps-IsOwned es (step reset refused s) k (tt, h.1)
  steps-IsOwned (answered ∷ es) s k h =
      steps-IsOwned es (step reset answered s) k (answer_to-IsOwned s.pending s h)
  steps-IsOwned (closed ∷ es) s k h =
      let quiet : not (is_some s.pending) ≡ true = ground arith in
      let rest : is_patient es (step reset closed s) ≡ true = ground arith in
      steps-IsOwned es (step reset closed s) rest (closed-IsOwned s.pending s quiet h)

  -- If the dialog is never closed while a request is under way, then a password that it shows is the
  -- one that the server gave to the user whose name stands above it, whatever else is opened, typed,
  -- clicked, refused and answered.
  pub steps-OwnsResult :
      (es : List Event)
      → is_patient es mounted ≡ true
      → OwnsResult
          (steps reset es mounted).is_open
          (steps reset es mounted).user
          (steps reset es mounted).result_password
  unfolding mounted
  steps-OwnsResult es k = (steps-IsOwned es mounted k (tt, tt)).1
