-- ===== src/Account/Profile/Bounds.antt =====
-- Which passwords are sent.
use pgmanager.Common.{◌≤◌, ◌≡◌, ◌≢◌, ◌↔◌, some, [], text_eq_iff, is_empty, length, arith}
use pgmanager.Api.{Request, Fields}
use pgmanager.Api.Auth.{change_password}
use pgmanager.Account.Profile.{Form, first_error, checked, handle_submit}

-- A password that may take the place of the current one.
abbrev pub IsChange : Form → Type 0
IsChange f =
    (f.current_password ≢ [])
    × ((8 ≤ length f.new_password) × (length f.new_password ≤ 72))
    × ((f.confirm_password ≡ f.new_password) × (f.new_password ≢ f.current_password))

-- The form sends a request exactly if the current password is given, the new one has from 8 to 72
-- units, is repeated, and is another one; the request changes the one to the other.
pub handle_submit_iff :
    (f : Form) (r : Request Fields)
    → ((handle_submit f).1 ≡ some r)
      ↔ (IsChange f × (r ≡ change_password f.current_password f.new_password))
unfolding handle_submit checked first_error is_empty
handle_submit_iff f r =
    let again = text_eq_iff f.new_password f.confirm_password in
    let same = text_eq_iff f.current_password f.new_password in ground arith
