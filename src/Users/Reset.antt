-- ===== src/Users/Reset.antt =====
-- backend/ui/src/components/dialogs/ResetPasswordDialog.tsx. The page keeps the dialog mounted: it
-- sets `open` and `user`. An event is a click or an input of the admin, or an answer of the server to
-- the request that is under way.
pub mod Given
use pgmanager.Common.{
  run, Bool, true, false, not, ◌&&◌, Option, none, some, List, [], ◌∷◌, Text, text, is_empty,
  is_some, or_else, if◌then◌else◌,
}
use pgmanager.Ui.{Effect, toast_success, toast_error, invalidate}
use pgmanager.Api.{Request, Fields}
use pgmanager.Api.Users.{UserOptions, update_user}
use pgmanager.Api.Auth.{reset_auth_user_password}

-- What `updateUser` is called with.
pub record Vars : Type 0 where
  pub username : Text
  pub password : Option Text
  pub generate_password : Option Bool

-- `sent` are the calls of the mutation, the latest first; `pending` is the one under way.
pub record Dialog : Type 0 where
  pub is_open : Bool
  pub user : Option Text
  pub password : Text
  pub generate : Bool
  pub result : Option Text
  pub pending : Option Vars
  pub sent : List Vars

unfoldable pub mounted : Dialog
mounted = record {
  is_open = false;
  user = none;
  password = [];
  generate = false;
  result = none;
  pending = none;
  sent = [];
}

unfoldable pub handle_close : Dialog → Dialog
handle_close s = record s { is_open = false; password = []; generate = false; result = none }

-- The button with the dice.
unfoldable pub toggle_generate : Dialog → Dialog
toggle_generate s = record s {
  generate = not s.generate;
  password = if not s.generate then [] else s.password;
}

-- `handleSubmit`, of the user's name: the schema refuses nothing.
unfoldable pub vars : Text → Dialog → Vars
vars username s = record {
  username = username;
  password = if is_empty s.password then none else some s.password;
  generate_password = if s.generate then some true else none;
}

submit_for : Option Text → Dialog → Dialog
submit_for none s = s
submit_for (some username) s = record s {
  pending = some (vars username s);
  sent = vars username s ∷ s.sent;
}

unfoldable pub handle_submit : Dialog → Dialog
unfolding submit_for
handle_submit s = submit_for s.user s

-- `data?.password || vars.password`, where `data` is what the server returns
final_password : Option Text → Option Text → Option Text
final_password none given = given
final_password (some p) given = if is_empty p then given else some p

-- `onSuccess`
shown : Option Text → Dialog → Dialog
shown none s = s
shown (some p) s = record s { result = some p }

answer_to : Option Vars → Option Text → Dialog → Dialog
answer_to none answer s = s
answer_to (some v) answer s = shown (final_password answer v.password) (record s { pending = none })

pub data Event : Type 0 where
  -- the key in the row of a user
  opened : Text → Event
  typed : Text → Event
  dice submit closed refused : Event
  -- with the password that the server made up, if it did
  answered : Option Text → Event

-- Whether the form is on the screen: the dialog is open and shows no password.
unfoldable pub has_form : Dialog → Bool
has_form s = s.is_open && not (is_some s.result)

-- The dialog is modal; the button "Save" is disabled while a request is under way.
unfoldable pub step : Event → Dialog → Dialog
unfolding handle_close toggle_generate handle_submit answer_to final_password shown has_form
step (opened username) s =
    if s.is_open then s else record s { is_open = true; user = some username }
step (typed w) s = if has_form s && not s.generate then record s { password = w } else s
step dice s = if has_form s then toggle_generate s else s
step submit s = if has_form s && not (is_some s.pending) then handle_submit s else s
step closed s = if s.is_open then handle_close s else s
step refused s = record s { pending = none }
step (answered answer) s = answer_to s.pending answer s

unfoldable pub steps : List Event → Dialog → Dialog
unfolding step
steps es s = run step es s

-- `mutationFn`
unfoldable pub request : (Text → Text) → Vars → Request UserOptions
request encode v = update_user encode v.username (record {
  password = v.password;
  access = none;
  generate_password = v.generate_password;
  allowed_ips = none;
  databases = none;
})
