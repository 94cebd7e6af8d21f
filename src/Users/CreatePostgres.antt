-- ===== src/Users/CreatePostgres.antt =====
-- backend/ui/src/components/dialogs/CreatePostgresUserDialog.tsx: the form for a user of the
-- databases.
pub mod Sent
use pgmanager.Common.{
  Bool, true, false, not, ◌&&◌, Option, none, some, ◌⊎◌, inl, inr, List, [], ◌∷◌, Text, text,
  is_nil, if◌then◌else◌,
}
use pgmanager.Schemas.{Access, write}
use pgmanager.Ui.{Effect, toast_success, toast_error, close, invalidate}
use pgmanager.Names.{Checked, ok, bad, parse_name, message}
use pgmanager.Api.{Request, Fields}
use pgmanager.Api.Users.{create_user}

pub record Form : Type 0 where
  pub username : Text
  pub access : Access
  pub selected_dbs : List Text
  pub allowed_ips : List Text
  pub error : Option Text

unfoldable pub reset_form : Form
reset_form = record {
  username = [];
  access = write;
  selected_dbs = [];
  allowed_ips = [];
  error = none;
}

-- What the mutation is called with.
pub record Vars : Type 0 where
  pub username : Text
  pub databases : List Text
  pub access : Access
  pub allowed_ips : Option (List Text)

-- `CreateUserRequestSchema`: the trimmed name, or the message of the first error. The databases are
-- checked before the name.
unfoldable pub safe_parse : List Text → Text → Checked ⊎ Text
safe_parse [] username = inr (text "at least one database is required")
safe_parse (d ∷ ds) username = inl (parse_name username)

parsed : Form → Checked ⊎ Text → Form × Option Vars
parsed f (inr m) = (record f { error = some m }, none)
parsed f (inl (bad e)) = (record f { error = some (message (text "username") e) }, none)
parsed f (inl (ok name)) = (
  record f { error = none },
  some (record {
    username = name;
    databases = f.selected_dbs;
    access = f.access;
    allowed_ips = if not (is_nil f.allowed_ips) then some f.allowed_ips else none;
  }),
)

unfoldable pub handle_submit : Form → Form × Option Vars
unfolding parsed
handle_submit f = parsed f (safe_parse f.selected_dbs f.username)

-- The button "Create".
unfoldable pub click_create : Bool → Form → Form × Option Vars
click_create is_pending f =
    if not is_pending && not (is_nil f.selected_dbs) then handle_submit f else (f, none)

-- `mutationFn`
unfoldable pub request : Vars → Request Fields
request v = create_user v.username v.databases v.access none v.allowed_ips

-- `onSuccess` and `onError`, with the credentials that are shown.
pub record Credentials : Type 0 where
  pub username : Text
  pub password : Text
  pub databases : List Text
  pub connection_string : Text

pub data Answer : Type 0 where
  created : Credentials → Answer
  refused : Text → Answer

unfoldable pub settled : Answer → Form → Form × (List Effect × Option Credentials)
unfolding reset_form
settled (created c) f = (
  reset_form,
  (
    toast_success (text "User created successfully") ∷ close ∷ invalidate (text "users" ∷ []) ∷ [],
    some c,
  ),
)
settled (refused m) f = (f, (toast_error m ∷ [], none))
