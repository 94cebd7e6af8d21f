-- ===== src/Account/Profile.antt =====
-- backend/ui/src/routes/Profile.tsx: the form for another password.
pub mod Bounds
use pgmanager.Common.{
  ℕ, Bool, true, false, not, ◌||◌, Option, none, some, List, [], ◌∷◌, Text, text, text_eq, is_empty,
  length, ltb, if◌then◌else◌,
}
use pgmanager.Ui.{Effect, toast_success}
use pgmanager.Api.{Request, Fields}
use pgmanager.Api.Auth.{change_password}

pub record Form : Type 0 where
  pub current_password : Text
  pub new_password : Text
  pub confirm_password : Text
  pub error : Option Text

-- The first error that is shown.
unfoldable pub first_error : Form → Option Text
first_error f =
    if is_empty f.current_password || is_empty f.new_password
    then some (text "All fields are required")
    else if ltb (length f.new_password) 8
    then some (text "New password must be at least 8 characters")
    else if ltb 72 (length f.new_password)
    then some (text "New password must be at most 72 characters")
    else if not (text_eq f.new_password f.confirm_password)
    then some (text "New passwords do not match")
    else if text_eq f.current_password f.new_password
    then some (text "New password must be different from current password")
    else none

checked : Option Text → Form → Form × Option (Request Fields)
checked (some m) f = (record f { error = some m }, none)
checked none f =
    (record f { error = none }, some (change_password f.current_password f.new_password))

-- The form, and the request if there is one.
unfoldable pub handle_submit : Form → Form × Option (Request Fields)
unfolding checked
handle_submit f = checked (first_error f) f

-- `onSuccess` and `onError`
unfoldable pub settled : Option Text → Form → Form × List Effect
settled none f = (
  record { current_password = []; new_password = []; confirm_password = []; error = none },
  toast_success (text "Password changed successfully. You have been logged out.") ∷ [],
)
settled (some m) f = (record f { error = some m }, [])
