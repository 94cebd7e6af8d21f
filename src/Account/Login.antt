-- ===== src/Account/Login.antt =====
-- backend/ui/src/routes/Login.tsx: the form for logging in.
use pgmanager.Common.{Text}
use pgmanager.Account.{Server, World, Left, login, settle}

module _ {W : Type 0} (S : Server W) where
  unfoldable pub handle_submit : Text → Text → World W → Left × World W
  handle_submit username password w = settle (login S username password w)
