-- ===== src/Confirm.antt =====
-- backend/ui/src/components/dialogs/ConfirmDeleteDialog.tsx, with the target that a page opens it
-- for and the deletions that the page sends. What an answer of the server does to the page differs
-- from page to page, and is a parameter.
pub mod Typed
use pgmanager.Common.{
  run, Bool, true, false, not, ◌&&◌, Option, none, some, List, [], ◌∷◌, Text, text, text_eq,
  if◌then◌else◌,
}

module _ (T : Type 0) where
  -- `target` and `is_pending` are the page's, `confirm_text` is the dialog's; `sent` are the targets
  -- that the mutation was called with, the latest first.
  pub record Page : Type 0 where
    pub target : Option T
    pub confirm_text : Text
    pub is_pending : Bool
    pub sent : List T

  unfoldable pub closed : Page
  closed = record { target = none; confirm_text = []; is_pending = false; sent = [] }

  -- `handleClose(false)`, with the page's `onOpenChange`
  unfoldable pub handle_close : Page → Page
  handle_close s = record s { target = none; confirm_text = [] }

  -- Whether the button "Delete" can be clicked.
  unfoldable pub can_confirm : Page → Bool
  can_confirm s = not s.is_pending && text_eq s.confirm_text (text "DELETE")

  -- `onConfirm` of the page
  unfoldable pub on_confirm : Option T → Page → Page
  on_confirm none s = s
  on_confirm (some t) s = record s { target = none; is_pending = true; sent = t ∷ s.sent }

  pub data Event : Type 0 where
    ask : T → Event
    typed : Text → Event
    cancel confirm answered : Event

  -- The dialog is modal, and its input and buttons are there only while it is open.
  unfoldable pub opened : Option T → Page → Page → Page
  opened none s s' = s
  opened (some t) s s' = s'

  unfoldable pub asked : Option T → T → Page → Page
  asked none t s = record s { target = some t }
  asked (some u) t s = s

  module _ (on_answer : Page → Page) where
    unfoldable pub step : Event → Page → Page
    unfolding handle_close can_confirm on_confirm opened asked
    step (ask t) s = asked s.target t s
    step (typed w) s = opened s.target s (record s { confirm_text = w })
    step cancel s = opened s.target s (handle_close s)
    step confirm s =
        opened s.target s (if can_confirm s then handle_close (on_confirm s.target s) else s)
    step answered s = on_answer s

    unfoldable pub steps : List Event → Page → Page
    unfolding step
    steps es s = run step es s
