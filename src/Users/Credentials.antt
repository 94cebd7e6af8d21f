-- ===== src/Users/Credentials.antt =====
-- backend/ui/src/components/dialogs/CredentialsDialog.tsx, with what routes/Users.tsx shows in it: the
-- credentials of a user who was just created.
pub mod Shown
use pgmanager.Common.{
  Bool, true, false, Option, none, some, List, [], ◌∷◌, map, Text, text, is_some,
}
use pgmanager.Ui.{Effect, toast_success}
use pgmanager.Users.CreateAuth
use pgmanager.Users.CreatePostgres

pub record Credential : Type 0 where
  pub label : Text
  pub value : Text
  pub is_secret : Bool

unfoldable pub of_postgres : Option CreatePostgres.Credentials → List Credential
of_postgres none = []
of_postgres (some c) =
    record { label = text "USERNAME"; value = c.username; is_secret = false }
    ∷ record { label = text "PASSWORD"; value = c.password; is_secret = true }
    ∷ record { label = text "CONNECTION STRING"; value = c.connection_string; is_secret = false }
    ∷ []

unfoldable pub of_auth : Option CreateAuth.Credentials → List Credential
of_auth none = []
of_auth (some c) =
    record { label = text "USERNAME"; value = c.username; is_secret = false }
    ∷ record { label = text "PASSWORD"; value = c.password; is_secret = true }
    ∷ []

-- The dialog is open while there are credentials.
unfoldable pub is_open : {C : Type 0} → Option C → Bool
is_open show_creds = is_some show_creds

-- `copyText`: what comes into the clipboard, unless the browser refuses, and the toast.
unfoldable pub copy_text : Credential → Bool → Option Text × List Effect
copy_text c true = (some c.value, toast_success (text "Copied to clipboard") ∷ [])
copy_text c false = (none, [])
