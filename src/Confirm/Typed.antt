-- ===== src/Confirm/Typed.antt =====
-- What has to be typed before a deletion.
use pgmanager.Common.{
  run_keep, ◌≡◌, refl, true, false, ◌||◌, none, List, [], ◌∷◌, Text, text, text_eq, is_empty,
  is_some, if◌then◌else◌, arith,
}
use pgmanager.Confirm.{
  Page, closed, handle_close, can_confirm, on_confirm, Event, ask, typed, confirm, answered, opened,
  asked, step, steps,
}

module _ {T : Type 0} (on_answer : Page T → Page T) where
  -- While the dialog is closed nothing is typed.
  abbrev pub IsClean : Page T → Type 0
  IsClean s = (is_some s.target || is_empty s.confirm_text) ≡ true

  -- What an answer leaves alone.
  abbrev pub Keeps : Type 0
  Keeps = (s : Page T) → IsClean s → IsClean (on_answer s)

  step-IsClean : Keeps → (e : Event T) (s : Page T) → IsClean s → IsClean (step T on_answer e s)
  unfolding step handle_close on_confirm opened asked is_empty
  step-IsClean k answered s h = k s h
  step-IsClean k e s h = ground arith

  steps-IsClean :
      Keeps → (es : List (Event T)) (s : Page T) → IsClean s → IsClean (steps T on_answer es s)
  unfolding steps
  steps-IsClean k = run_keep (step T on_answer) IsClean (step-IsClean k)

  reached-IsClean : Keeps → (es : List (Event T)) → IsClean (steps T on_answer es (closed T))
  unfolding closed is_empty
  reached-IsClean k es = steps-IsClean k es (closed T) refl

  empty_of_clean : (s : Page T) → IsClean s → s.target ≡ none → s.confirm_text ≡ []
  unfolding is_empty
  empty_of_clean s h e = ground arith

  module _ (t : T) (s : Page T) (e : s.target ≡ none) (c : s.confirm_text ≡ [])
      (q : s.is_pending ≡ false) where
    ask_confirm : (steps T on_answer (ask t ∷ confirm ∷ []) s).sent ≡ s.sent
    unfolding steps step asked opened can_confirm text_eq text
    ask_confirm = ground arith

    ask_typed_confirm :
        (w : Text)
        → (steps T on_answer (ask t ∷ typed w ∷ confirm ∷ []) s).sent
          ≡ (if text_eq w (text "DELETE") then t ∷ s.sent else s.sent)
    unfolding steps step asked opened can_confirm on_confirm handle_close
    ask_typed_confirm w = ground arith

  -- On a page whose answers type nothing into the closed dialog, after anything that can happen, when
  -- the dialog is closed and no deletion is under way: a deletion that is asked for and confirmed at
  -- once sends nothing; with a text typed in between it sends the target exactly if the text is
  -- DELETE.
  pub steps-confirmed :
      Keeps
      → (es : List (Event T)) (t : T) (w : Text) → (steps T on_answer es (closed T)).target ≡ none
      → (steps T on_answer es (closed T)).is_pending ≡ false
      → let s = steps T on_answer es (closed T) in
        ((steps T on_answer (ask t ∷ confirm ∷ []) s).sent ≡ s.sent)
        × ((steps T on_answer (ask t ∷ typed w ∷ confirm ∷ []) s).sent
            ≡ (if text_eq w (text "DELETE") then t ∷ s.sent else s.sent))
  steps-confirmed k es t w e q =
      let s = steps T on_answer es (closed T) in
      let c = empty_of_clean s (reached-IsClean k es) e in
      (ask_confirm t s e c q, ask_typed_confirm t s e c q w)
