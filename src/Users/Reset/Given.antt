-- ===== src/Users/Reset/Given.antt =====
-- Which passwords are sent, and which are shown.
use pgmanager.Common.{
  if_keep, run_keep, ◌≡◌, refl, Bool, true, false, not, ◌&&◌, ◌||◌, Option, none, some, List, [],
  ◌∷◌, Text, is_empty, is_some, if◌then◌else◌, All, arith,
}
use pgmanager.Users.Reset.{
  Vars, Dialog, mounted, handle_close, toggle_generate, vars, submit_for, handle_submit,
  final_password, shown, answer_to, Event, opened, typed, dice, submit, closed, refused, answered,
  has_form, step, steps,
}

-- While a password is to be generated, none is typed.
abbrev pub IsEither : Dialog → Type 0
IsEither s = (not s.generate || is_empty s.password) ≡ true

-- The request asks for a password or gives one, not both.
abbrev pub GivesOne : Vars → Type 0
GivesOne v = (is_some v.password && is_some v.generate_password) ≡ false

vars-GivesOne : (name : Text) (s : Dialog) → IsEither s → GivesOne (vars name s)
unfolding vars
vars-GivesOne name s h = ground arith

abbrev IsSound : Dialog → Type 0
IsSound s = IsEither s × All GivesOne s.sent

submit_for-IsSound : (o : Option Text) (s : Dialog) → IsSound s → IsSound (submit_for o s)
unfolding submit_for
submit_for-IsSound none s h = h
submit_for-IsSound (some name) s h = (h.0, (vars-GivesOne name s h.0, h.1))

shown-IsSound : (o : Option Text) (s : Dialog) → IsSound s → IsSound (shown o s)
unfolding shown
shown-IsSound none s h = h
shown-IsSound (some p) s h = h

answer_to-IsSound :
    (o : Option Vars) (a : Option Text) (s : Dialog) → IsSound s → IsSound (answer_to o a s)
unfolding answer_to
answer_to-IsSound none a s h = h
answer_to-IsSound (some v) a s h =
    shown-IsSound (final_password a v.password) (record s { pending = none }) h

toggle-IsEither : (s : Dialog) → IsEither s → IsEither (toggle_generate s)
unfolding toggle_generate is_empty
toggle-IsEither s h = ground arith

typed-IsSound :
    (b g : Bool) (s : Dialog) (w : Text)
    → IsSound (record s { generate = g })
    → IsSound
        (if b && not g then record s { generate = g; password = w } else record s { generate = g })
typed-IsSound true true s w h = h
typed-IsSound true false s w h = (refl, h.1)
typed-IsSound false g s w h = h

step-IsSound : (e : Event) (s : Dialog) → IsSound s → IsSound (step e s)
unfolding step handle_submit handle_close is_empty
step-IsSound (opened name) s h =
    if_keep IsSound s.is_open s (record s { is_open = true; user = some name }) h h
step-IsSound (typed w) s h = typed-IsSound (has_form s) s.generate s w h
step-IsSound dice s h =
    if_keep IsSound (has_form s) (toggle_generate s) s (toggle-IsEither s h.0, h.1) h
step-IsSound submit s h =
    if_keep IsSound (has_form s && not (is_some s.pending)) (submit_for s.user s) s
      (submit_for-IsSound s.user s h) h
step-IsSound closed s h = if_keep IsSound s.is_open (handle_close s) s (refl, h.1) h
step-IsSound refused s h = h
step-IsSound (answered a) s h = answer_to-IsSound s.pending a s h

steps-IsSound : (es : List Event) (s : Dialog) → IsSound s → IsSound (steps es s)
unfolding steps
steps-IsSound = run_keep step IsSound step-IsSound

-- Whatever is opened, typed, clicked and answered, no request of the dialog both gives a password
-- and asks the server for one.
pub steps-GivesOne : (es : List Event) → All GivesOne (steps es mounted).sent
unfolding mounted
steps-GivesOne es = (steps-IsSound es mounted (refl, tt)).1

-- If the dialog is closed before the server answers and opened for a second user, then the answer
-- shows there, under the name of the second user, the password that the first one got: the typed
-- one, or the one that the server made up.
pub steps-answered_late :
    (a b p q : Text)
    → is_empty p ≡ false
    → is_empty q ≡ false
    → let typed_in =
        steps (opened a ∷ typed p ∷ submit ∷ closed ∷ opened b ∷ answered none ∷ []) mounted in
      let made_up =
        steps (opened a ∷ dice ∷ submit ∷ closed ∷ opened b ∷ answered (some q) ∷ []) mounted in
      ((typed_in.user ≡ some b) × (typed_in.result ≡ some p))
      × ((made_up.user ≡ some b) × (made_up.result ≡ some q))
unfolding steps step mounted has_form handle_close handle_submit submit_for toggle_generate
    answer_to final_password shown vars
steps-answered_late a b p q h k = rw (h, k) ((refl, refl), (refl, refl))
