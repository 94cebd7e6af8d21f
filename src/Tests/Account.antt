-- ===== src/Tests/Account.antt =====
-- The account: a server with one account, and its passwords.
use pgmanager.Common.{
  ◌≤◌, ◌≡◌, ◌↔◌, refl, true, false, ◌&&◌, Option, none, some, Text, text, text_eq, text_eq_refl,
  length, if◌then◌else◌, arith,
}
use pgmanager.Schemas.{AuthUser, admin}
use pgmanager.Auth.{root, users_at, users, databases_table, shows, view}
use pgmanager.Account.{Result, ok, err, Server, World}
use pgmanager.Account.Setup
use pgmanager.Account.Setup.Entered.{SetsUp, IsAccepted, handle_submit-entered}
use pgmanager.Account.Profile
use pgmanager.Account.Profile.Bounds.{IsChange, handle_submit_iff}
use pgmanager.Api.Auth.{change_password}

-- The server keeps the account, and who is logged in.
pub record Accounts : Type 0 where
  pub account : Option (Text × Text)
  pub current : Option AuthUser

abbrev set_up : Text → Text → Accounts → Result Unit × Accounts
set_up u p w = elim w.account [
  | none ↦ (ok tt, record w { account = some (u, p) })
  | some a ↦ (err (text "already set up"), w)
]

abbrev let_in : Text → Text → Accounts → Result Unit × Accounts
let_in u p w = elim w.account [
  | none ↦ (err (text "no account"), w)
  | some (v, q) ↦
      if text_eq u v && text_eq p q
      then (ok tt, record w { current = some (record { username = u; role = admin }) })
      else (err (text "wrong password"), w)
]

abbrev me : Accounts → Result AuthUser × Accounts
me w = elim w.current [ none ↦ (err (text "not logged in"), w) | some u ↦ (ok u, w) ]

abbrev server : Server Accounts
server = record {
  setup = set_up;
  login = let_in;
  logout = λ w. (ok tt, record w { current = none });
  fetch_me = me;
}

abbrev Fresh : Accounts → Type 0
Fresh w = w.account ≡ none

server-SetsUp : SetsUp server Fresh length
server-SetsUp = record {
  sets_up = λ u p w f a. rw f refl;
  lets_in = λ u p w f a. rw (f, text_eq_refl u, text_eq_refl p) refl;
  knows = λ u p w f a. rw (f, text_eq_refl u, text_eq_refl p) refl;
}

abbrev empty : World Accounts
empty = record {
  session = record { user = none; loading = false; needs_setup = true };
  server = record { account = none; current = none };
}

three : 3 ≤ length (text "ann")
unfolding text
three = omega arith

eight : 8 ≤ length (text "secret12")
unfolding text
eight = omega arith

ann-IsAccepted : IsAccepted length (text "ann") (text "secret12")
unfolding text
ann-IsAccepted = (ground arith, omega arith, omega arith, omega arith)

handle_submit-entered_example :
    let (left, after) =
      Setup.handle_submit server (text "ann") (text "secret12") (text "secret12") empty in
    ((left.error ≡ none) × (left.navigated ≡ true))
    × ((view after.session root ≡ shows databases_table)
        × (view after.session users_at ≡ shows users))
handle_submit-entered_example =
    handle_submit-entered server Fresh length server-SetsUp (text "ann") (text "secret12") empty
      refl ann-IsAccepted eight refl

abbrev form : Profile.Form
form = record {
  current_password = text "secret12";
  new_password = text "secret13";
  confirm_password = text "secret13";
  error = none;
}

handle_submit_iff_example :
    ((Profile.handle_submit form).1 ≡ some (change_password (text "secret12") (text "secret13")))
    ↔ (IsChange form
        × (change_password (text "secret12") (text "secret13")
            ≡ change_password form.current_password form.new_password))
handle_submit_iff_example =
    handle_submit_iff form (change_password (text "secret12") (text "secret13"))
