-- ===== src/Users/CreateAuth/Sent.antt =====
-- What the form for a user of the dashboard sends.
use pgmanager.Common.{
  run_keep, ◌≡◌, refl, Bool, true, false, not, ◌&&◌, ◌||◌, none, some, List, [], ◌∷◌, Text,
  is_empty, is_nil, length, leb, if◌then◌else◌, arith,
}
use pgmanager.Schemas.{Role, admin, dev, viewer}
use pgmanager.Users.CreateAuth.{
  is_dev_role, Form, reset_form, handle_role_change, Vars, vars, password_error, first_error,
  checked, handle_submit, click_create, created, refused, settled, Event, set_username,
  set_password, change_role, select, create, answered, step, steps,
}

-- Only a "dev" has databases selected.
abbrev pub IsTidy : Form → Type 0
IsTidy f = (is_dev_role f.role || is_nil f.selected_dbs) ≡ true

step-IsTidy : (e : Event) (f : Form) → IsTidy f → IsTidy (step e f)
unfolding step handle_role_change click_create handle_submit checked settled reset_form
step-IsTidy (answered (created c)) f h = refl
step-IsTidy (answered (refused m)) f h = h
step-IsTidy (set_username s) f h = h
step-IsTidy (set_password s) f h = h
step-IsTidy (change_role admin) f h = refl
step-IsTidy (change_role dev) f h = refl
step-IsTidy (change_role viewer) f h = refl
step-IsTidy (select dbs) f h = ground arith
step-IsTidy (create is_pending) f h = ground arith

steps-keep : (es : List Event) (f : Form) → IsTidy f → IsTidy (steps es f)
unfolding steps
steps-keep = run_keep step IsTidy step-IsTidy

-- After anything that was typed, chosen, sent and answered, databases are selected only while the
-- role is "dev": those of a role that was given up are gone.
pub steps-IsTidy : (es : List Event) → IsTidy (steps es reset_form)
unfolding reset_form
steps-IsTidy es = steps-keep es reset_form refl

-- What the form has to hold.
abbrev pub is_complete : Form → Bool
is_complete f =
    leb 3 (length f.username)
    && (is_empty f.password || leb 8 (length f.password))
    && (not (is_dev_role f.role) || not (is_nil f.selected_dbs))

-- What a complete form sends.
abbrev pub told : Form → Vars
told f = record {
  username = f.username;
  password = if is_empty f.password then none else some f.password;
  role = f.role;
  databases = if is_dev_role f.role then some f.selected_dbs else none;
}

-- A click on "Create" while nothing is under way sends the user exactly if the name has 3 characters
-- or more, the password is left blank or has 8 or more, and a "dev" has a database; what it sends is
-- the role, the password if there is one, and the databases if the role is "dev".
pub click_create-is_complete :
    (f : Form) → (click_create false f).1 ≡ (if is_complete f then some (told f) else none)
unfolding click_create handle_submit checked first_error password_error vars is_empty
click_create-is_complete f = by_fields f.password f.role f.selected_dbs
  where
    by_fields :
        (p : Text) (r : Role) (d : List Text)
        → let g : Form = record f { password = p; role = r; selected_dbs = d } in
          (click_create false g).1 ≡ (if is_complete g then some (told g) else none)
    by_fields p dev [] = ground arith
    by_fields [] r d = ground arith
    by_fields (c ∷ p) r d = ground arith
