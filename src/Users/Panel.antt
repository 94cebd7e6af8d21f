-- ===== src/Users/Panel.antt =====
-- backend/ui/src/routes/Users.tsx: which of the page's dialogs are open, and for whom. The same
-- handlers serve the users of the databases and those of the dashboard; `U` are the objects that
-- stand for the users, `C` the credentials that are shown after a creation.
pub mod Targets
use pgmanager.Common.{
  run, Bool, true, false, Option, none, some, List, [], ◌∷◌, Text, ◌||◌, if◌then◌else◌, is_some,
}
use pgmanager.Confirm
use pgmanager.Confirm.{Page}

module _ (U C : Type 0) where
  -- One half of the page; `deletion` is the confirmation with `deleteTarget`.
  pub record Half : Type 0 where
    pub create_open : Bool
    pub edit_open : Bool
    pub edit_target : Option U
    pub reset_open : Bool
    pub reset_target : Option U
    pub show_creds : Option C
    pub deletion : Page U

  unfoldable pub mounted : Half
  mounted = record {
    create_open = false;
    edit_open = false;
    edit_target = none;
    reset_open = false;
    reset_target = none;
    show_creds = none;
    deletion = Confirm.closed U;
  }

  -- `isPending` becomes false, whatever the answer is.
  unfoldable pub on_answer : Page U → Page U
  on_answer p = record p { is_pending = false }

  pub data Event : Type 0 where
    click_create : Event
    click_edit click_reset : U → Event
    -- what the dialogs do: `onOpenChange(false)`, `onCreated`, and the confirmation's own events
    close_create close_edit close_reset close_creds : Event
    created : C → Event
    deletion : Confirm.Event U → Event

  unfoldable pub step : Event → Half → Half
  unfolding on_answer
  step click_create s = record s { create_open = true }
  step (click_edit u) s = record s { edit_target = some u; edit_open = true }
  step (click_reset u) s = record s { reset_target = some u; reset_open = true }
  step close_create s = record s { create_open = false }
  step close_edit s = record s { edit_open = false }
  step close_reset s = record s { reset_open = false }
  step close_creds s = record s { show_creds = none }
  step (created c) s = record s { show_creds = some c }
  step (deletion e) s = record s { deletion = Confirm.step U on_answer e s.deletion }

  unfoldable pub steps : List Event → Half → Half
  unfolding step
  steps es s = run step es s
