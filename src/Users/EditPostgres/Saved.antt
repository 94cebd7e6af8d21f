-- ===== src/Users/EditPostgres/Saved.antt =====
-- What is saved of a user of the databases.
use pgmanager.Common.{
  ◌≡◌, ap, ◌∙◌, false, some, List, [], ◌∷◌, ◌++◌, Text, text, is_nil, if◌then◌else◌, arith,
}
use pgmanager.Schemas.{User}
use pgmanager.Users.Editor.{Row, Editor, mounted, Event, pencil, input, step, steps}
use pgmanager.Users.Editor.Filled.{IsNew, steps-append, other_of_new}
use pgmanager.Users.EditPostgres.{
  set_ips, fill, change, form, Vars, submit_for, handle_submit, click_save,
}

-- What is saved of the user with other addresses.
abbrev pub readdressed : List Text → User → Vars
readdressed ips u = record {
  username = u.username;
  access = some u.access;
  allowed_ips = some (if is_nil ips then text "0.0.0.0/0" ∷ [] else ips);
  databases = some u.databases;
}

save_readdressed :
    (s : Editor form) (r : Row User) (ips : List Text)
    → IsNew form s.row r
    → click_save false (steps form (pencil r ∷ input (set_ips ips) ∷ []) s)
      ≡ some (readdressed ips r.user)
unfolding click_save handle_submit submit_for steps step fill change
save_readdressed s r ips n = rw (other_of_new form s.row r n) (ground arith)

-- After anything that was opened, typed and closed: if a row is opened that is another object than
-- the one before and its addresses are edited to a list, then "Save" sends the user's own access and
-- databases with that list; if the list was emptied, it sends the addresses 0.0.0.0/0, which is every
-- address.
pub steps-set_ips :
    (es : List (Event form)) (r : Row User) (ips : List Text)
    → IsNew form (steps form es (mounted form)).row r
    → click_save false (steps form (es ++ pencil r ∷ input (set_ips ips) ∷ []) (mounted form))
      ≡ some (readdressed ips r.user)
steps-set_ips es r ips n =
    ap (click_save false)
      (steps-append form es (pencil r ∷ input (set_ips ips) ∷ []) (mounted form))
    ∙ save_readdressed (steps form es (mounted form)) r ips n
