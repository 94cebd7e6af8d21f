-- ===== src/Users/EditAuth.antt =====
-- backend/ui/src/components/dialogs/EditAuthUserDialog.tsx: the form of a user of the dashboard,
-- with the state of `Users.Editor`.
pub mod Saved
use pgmanager.Common.{
  Bool, true, false, not, ◌&&◌, Option, none, some, List, [], ◌∷◌, Text, text, is_nil, or_else,
  if◌then◌else◌,
}
use pgmanager.Schemas.{Role, viewer, AuthUserListItem}
use pgmanager.Ui.{Effect, toast_success, toast_error, close, invalidate}
use pgmanager.Api.{Request, Fields}
use pgmanager.Api.Auth.{update_auth_user}
use pgmanager.Users.Editor.{EditForm, Row, Editor}
use pgmanager.Users.CreateAuth.{is_dev_role}

pub record Form : Type 0 where
  pub role : Role
  pub selected_dbs : List Text

pub data Input : Type 0 where
  change_role : Role → Input
  select : List Text → Input

unfoldable pub blank : Form
blank = record { role = viewer; selected_dbs = [] }

-- The effect, for a user that is given.
unfoldable pub fill : AuthUserListItem → Form → Form
fill user f = record { role = user.role; selected_dbs = or_else user.databases [] }

-- `handleRoleChange`, and the input for databases, which is shown to a "dev" only.
unfoldable pub change : Input → Form → Form
change (change_role val) f = record {
  role = val;
  selected_dbs = if not (is_dev_role val) then [] else f.selected_dbs;
}
change (select dbs) f = if is_dev_role f.role then record f { selected_dbs = dbs } else f

abbrev pub form : EditForm
form = record {
  U = AuthUserListItem;
  F = Form;
  I = Input;
  blank = blank;
  fill = fill;
  change = change;
}

-- What the mutation is called with.
pub record Vars : Type 0 where
  pub username : Text
  pub role : Role
  pub databases : Option (List Text)

unfoldable pub submit_for : Option (Row AuthUserListItem) → Form → Option Vars
submit_for none f = none
submit_for (some r) f = some (record {
  username = r.user.username;
  role = f.role;
  databases =
      if is_dev_role f.role && not (is_nil f.selected_dbs) then some f.selected_dbs else none;
})

unfoldable pub handle_submit : Editor form → Option Vars
unfolding submit_for
handle_submit s = submit_for s.row s.form

-- The button "Save".
unfoldable pub click_save : Bool → Editor form → Option Vars
click_save is_pending s =
    if s.is_open && not is_pending && not (is_dev_role s.form.role && is_nil s.form.selected_dbs)
    then handle_submit s
    else none

-- `mutationFn`
unfoldable pub request : (Text → Text) → Vars → Request Fields
request encode v = update_auth_user encode v.username v.role v.databases

-- `onSuccess`, and `onError` with its message
unfoldable pub settled : Option Text → List Effect
settled none =
    toast_success (text "Auth user updated") ∷ close ∷ invalidate (text "authUsers" ∷ []) ∷ []
settled (some m) = toast_error m ∷ []
