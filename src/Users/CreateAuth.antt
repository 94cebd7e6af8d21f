-- ===== src/Users/CreateAuth.antt =====
-- backend/ui/src/components/dialogs/CreateAuthUserDialog.tsx: the form for a user of the dashboard.
pub mod Sent
use pgmanager.Common.{
  run, Bool, true, false, not, ◌&&◌, Option, none, some, List, [], ◌∷◌, Text, text, is_empty,
  is_nil, length, ltb, or_else, if◌then◌else◌,
}
use pgmanager.Schemas.{Role, admin, dev, viewer}
use pgmanager.Ui.{Effect, toast_success, toast_error, close, invalidate}
use pgmanager.Api.{Request, Fields}
use pgmanager.Api.Auth.{create_auth_user}

abbrev pub is_dev_role : Role → Bool
is_dev_role admin = false
is_dev_role dev = true
is_dev_role viewer = false

pub record Form : Type 0 where
  pub username : Text
  pub password : Text
  pub role : Role
  pub selected_dbs : List Text
  pub error : Option Text

unfoldable pub reset_form : Form
reset_form = record { username = []; password = []; role = viewer; selected_dbs = []; error = none }

unfoldable pub handle_role_change : Role → Form → Form
handle_role_change val f = record f {
  role = val;
  selected_dbs = if not (is_dev_role val) then [] else f.selected_dbs;
}

-- What the mutation is called with.
pub record Vars : Type 0 where
  pub username : Text
  pub password : Option Text
  pub role : Role
  pub databases : Option (List Text)

unfoldable pub vars : Form → Vars
vars f = record {
  username = f.username;
  password = if is_empty f.password then none else some f.password;
  role = f.role;
  databases =
      if is_dev_role f.role && not (is_nil f.selected_dbs) then some f.selected_dbs else none;
}

password_error : Option Text → Option Text
password_error none = none
password_error (some p) =
    if ltb (length p) 8 then some (text "password must be at least 8 characters") else none

-- `CreateAuthUserRequestSchema`: the message of the first error.
unfoldable pub first_error : Vars → Option Text
unfolding password_error
first_error v =
    if ltb (length v.username) 3
    then some (text "username must be at least 3 characters")
    else password_error v.password

checked : Form → Option Text → Form × Option Vars
checked f (some m) = (record f { error = some m }, none)
checked f none = (record f { error = none }, some (vars f))

unfoldable pub handle_submit : Form → Form × Option Vars
unfolding checked
handle_submit f = checked f (first_error (vars f))

-- The button "Create".
unfoldable pub click_create : Bool → Form → Form × Option Vars
click_create is_pending f =
    if not is_pending && not (is_dev_role f.role && is_nil f.selected_dbs)
    then handle_submit f
    else (f, none)

-- `mutationFn`
unfoldable pub request : Vars → Request Fields
request v = create_auth_user v.username (or_else v.password []) v.role v.databases

-- `onSuccess` and `onError`, with the credentials that are shown.
pub record Credentials : Type 0 where
  pub username : Text
  pub password : Text

pub data Answer : Type 0 where
  created : Credentials → Answer
  refused : Text → Answer

unfoldable pub settled : Answer → Form → Form × (List Effect × Option Credentials)
unfolding reset_form
settled (created c) f = (
  reset_form,
  (
    toast_success (text "Auth user created") ∷ close ∷ invalidate (text "authUsers" ∷ []) ∷ [],
    some c,
  ),
)
settled (refused m) f = (f, (toast_error m ∷ [], none))

-- The inputs; that for databases is shown to a "dev" only.
pub data Event : Type 0 where
  set_username set_password : Text → Event
  change_role : Role → Event
  select : List Text → Event
  create : Bool → Event
  answered : Answer → Event

unfoldable pub step : Event → Form → Form
unfolding handle_role_change click_create settled
step (set_username s) f = record f { username = s }
step (set_password s) f = record f { password = s }
step (change_role r) f = handle_role_change r f
step (select dbs) f = if is_dev_role f.role then record f { selected_dbs = dbs } else f
step (create is_pending) f = (click_create is_pending f).0
step (answered a) f = (settled a f).0

unfoldable pub steps : List Event → Form → Form
unfolding step
steps es f = run step es f
