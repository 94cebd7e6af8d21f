-- ===== src/Users/EditAuth/Saved.antt =====
-- What is saved of a user of the dashboard.
use pgmanager.Common.{
  ℕ, ◌≡◌, ap, ◌∙◌, true, false, not, ◌&&◌, Option, none, some, List, [], ◌∷◌, ◌++◌, Text, is_nil,
  or_else, if◌then◌else◌, arith,
}
use pgmanager.Schemas.{Role, AuthUserListItem}
use pgmanager.Users.CreateAuth.{is_dev_role}
use pgmanager.Users.Editor.{Row, Editor, mounted, Event, pencil, input, step, steps}
use pgmanager.Users.Editor.Filled.{IsNew, other_of_new, steps-append}
use pgmanager.Users.EditAuth.{
  change_role, fill, change, form, Vars, submit_for, handle_submit, click_save,
}

-- A user as the server lists it: a "dev" has databases, another user has none.
abbrev pub IsListed : AuthUserListItem → Type 0
IsListed u = is_nil (or_else u.databases []) ≡ not (is_dev_role u.role)

-- What the pencil and a role that is chosen then leave to be saved.
abbrev pub changed_to : Role → AuthUserListItem → Option Vars
changed_to r u =
    if is_dev_role r && not (is_dev_role u.role)
    then none
    else some (record {
      username = u.username;
      role = r;
      databases = if is_dev_role r then u.databases else none;
    })

-- The editor of a user whose form is filled, with a role that is chosen.
abbrev filled : Row AuthUserListItem → Role → Editor form
filled u r = record {
  is_open = true;
  row = some u;
  form =
      change (change_role r)
        (record { role = u.user.role; selected_dbs = or_else u.user.databases [] });
}

save_filled :
    (u : Row AuthUserListItem) (r : Role)
    → IsListed u.user
    → click_save false (filled u r) ≡ changed_to r u.user
unfolding click_save handle_submit submit_for change
save_filled u r h = by_databases u.ref u.user u.user.databases h
  where
    by_databases :
        (n : ℕ) (a : AuthUserListItem) (d : Option (List Text))
        → let b : AuthUserListItem = record a { databases = d } in
          IsListed b → click_save false (filled (record { ref = n; user = b }) r) ≡ changed_to r b
    by_databases n a none h = ground arith
    by_databases n a (some []) h = ground arith
    by_databases n a (some (x ∷ d)) h = ground arith

save_changed :
    (s : Editor form) (u : Row AuthUserListItem) (r : Role)
    → IsListed u.user
    → IsNew form s.row u
    → click_save false (steps form (pencil u ∷ input (change_role r) ∷ []) s) ≡ changed_to r u.user
unfolding steps step fill
save_changed s u r h n = rw (other_of_new form s.row u n) (save_filled u r h)

-- After anything that was opened, typed and closed: if a row is opened that is another object than
-- the one before, of a user who has databases exactly if it is a "dev", and a role is chosen, then
-- "Save" sends that user with that role, with the databases the user has if the role is "dev" and
-- without any if not; it is disabled if the user becomes a "dev" just now.
pub steps-click_save :
    (es : List (Event form)) (u : Row AuthUserListItem) (r : Role)
    → IsListed u.user
    → IsNew form (steps form es (mounted form)).row u
    → click_save false (steps form (es ++ pencil u ∷ input (change_role r) ∷ []) (mounted form))
      ≡ changed_to r u.user
steps-click_save es u r h n =
    ap (click_save false)
      (steps-append form es (pencil u ∷ input (change_role r) ∷ []) (mounted form))
    ∙ save_changed (steps form es (mounted form)) u r h n
