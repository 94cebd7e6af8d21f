-- ===== src/Users/EditPostgres.antt =====
-- backend/ui/src/components/dialogs/EditPostgresUserDialog.tsx: the form of a user of the databases,
-- with the state of `Users.Editor`.
pub mod Saved
use pgmanager.Common.{
  Bool, not, ◌&&◌, Option, none, some, List, [], ◌∷◌, Text, text, is_nil, if◌then◌else◌,
}
use pgmanager.Schemas.{Access, write, User}
use pgmanager.Ui.{Effect, toast_success, toast_error, close, invalidate}
use pgmanager.Api.{Request}
use pgmanager.Api.Users.{UserOptions, update_user}
use pgmanager.Users.Editor.{EditForm, Row, Editor}

pub record Form : Type 0 where
  pub access : Access
  pub selected_dbs : List Text
  pub allowed_ips : List Text

pub data Input : Type 0 where
  set_access : Access → Input
  select set_ips : List Text → Input

unfoldable pub blank : Form
blank = record { access = write; selected_dbs = []; allowed_ips = [] }

-- The effect, for a user that is given.
unfoldable pub fill : User → Form → Form
fill user f = record {
  access = user.access;
  selected_dbs = user.databases;
  allowed_ips = user.allowed_ips;
}

unfoldable pub change : Input → Form → Form
change (set_access a) f = record f { access = a }
change (select dbs) f = record f { selected_dbs = dbs }
change (set_ips ips) f = record f { allowed_ips = ips }

abbrev pub form : EditForm
form = record { U = User; F = Form; I = Input; blank = blank; fill = fill; change = change }

-- What the mutation is called with. The schema refuses nothing that the form can hold, and the
-- access and the databases are always there.
pub record Vars : Type 0 where
  pub username : Text
  pub access : Option Access
  pub allowed_ips : Option (List Text)
  pub databases : Option (List Text)

unfoldable pub submit_for : Option (Row User) → Form → Option Vars
submit_for none f = none
submit_for (some r) f = some (record {
  username = r.user.username;
  access = some f.access;
  allowed_ips = some (if not (is_nil f.allowed_ips) then f.allowed_ips else text "0.0.0.0/0" ∷ []);
  databases = some f.selected_dbs;
})

unfoldable pub handle_submit : Editor form → Option Vars
unfolding submit_for
handle_submit s = submit_for s.row s.form

-- The button "Save".
unfoldable pub click_save : Bool → Editor form → Option Vars
click_save is_pending s = if s.is_open && not is_pending then handle_submit s else none

-- `mutationFn`
unfoldable pub request : (Text → Text) → Vars → Request UserOptions
request encode v = update_user encode v.username (record {
  password = none;
  access = v.access;
  generate_password = none;
  allowed_ips = v.allowed_ips;
  databases = v.databases;
})

-- `onSuccess`, and `onError` with its message
unfoldable pub settled : Option Text → List Effect
settled none = toast_success (text "User updated") ∷ close ∷ invalidate (text "users" ∷ []) ∷ []
settled (some m) = toast_error m ∷ []
