-- ===== src/Account/Setup.antt =====
-- backend/ui/src/routes/Setup.tsx: the form for the first account.
pub mod Entered
use pgmanager.Common.{
  ℕ, Bool, true, false, not, Option, none, some, List, [], ◌∷◌, Text, text, text_eq, length, ltb,
  if◌then◌else◌,
}
use pgmanager.Account.{
  Result, ok, err, Server, World, Action, ◌>>=◌, ◌>>◌, call, Left, login, settle,
}

-- The error that is shown before anything is sent.
unfoldable pub first_error : Text → Text → Text → Option Text
first_error username password confirm_password =
    if ltb (length username) 3
    then some (text "Username must be at least 3 characters")
    else if ltb (length password) 8
    then some (text "Password must be at least 8 characters")
    else if not (text_eq password confirm_password)
    then some (text "Passwords do not match")
    else none

module _ {W : Type 0} (S : Server W) where
  unfoldable pub create_admin : Text → Text → Action W Unit
  create_admin username password = do call (S.setup username password); login S username password

  checked : Option Text → Text → Text → World W → Left × World W
  checked (some m) username password w =
      (record { loading = false; error = some m; navigated = false }, w)
  checked none username password w = settle (create_admin username password w)

  unfoldable pub handle_submit : Text → Text → Text → World W → Left × World W
  unfolding checked
  handle_submit username password confirm_password w =
      checked (first_error username password confirm_password) username password w
