-- ===== src/Users/Table/Kept.antt =====
-- Saving the form of a user without a change keeps the row of the user.
use mathlib.Core.Option as Option
use pgmanager.Common.{
  ℕ, ◌≡◌, refl, ap, ◌∙◌, true, false, Option, none, some, List, [], ◌∷◌, ◌++◌, Text, is_nil,
  or_else, arith,
}
use pgmanager.Schemas.{Role, admin, dev, viewer, User, AuthUserListItem}
use pgmanager.Users.Editor.{Row, Editor, mounted, Event, pencil, step, steps}
use pgmanager.Users.Editor.Filled.{IsNew, other_of_new, steps-append}
use pgmanager.Users.EditAuth
use pgmanager.Users.EditAuth.{Form, click_save, handle_submit, submit_for, fill}
use pgmanager.Users.EditPostgres
use pgmanager.Users.EditAuth.Saved.{IsListed}
use pgmanager.Users.Table.{auth_databases, auth_row, postgres_row, AuthRow, PostgresRow}

-- The user of the dashboard once what was sent is stored: without databases it has none.
abbrev pub stored_auth : AuthUserListItem → EditAuth.Vars → AuthUserListItem
stored_auth u v = record u { role = v.role; databases = v.databases }

-- The user of the databases once what was sent is stored; what is not sent stays.
abbrev pub stored : User → EditPostgres.Vars → User
stored u v = record u {
  access = or_else v.access u.access;
  databases = or_else v.databases u.databases;
  allowed_ips = or_else v.allowed_ips u.allowed_ips;
}

module _ (date : Text → Text) where
  -- What the row shows once the form is saved.
  abbrev pub saved_auth_row : Editor EditAuth.form → AuthUserListItem → Option AuthRow
  saved_auth_row s u =
      Option.map (λ v. auth_row date (stored_auth u v)) (EditAuth.click_save false s)

  save_filled :
      (n : ℕ) (u : AuthUserListItem) (r : Role) (d : Option (List Text)) (f : Form)
      → let v : AuthUserListItem = record u { role = r; databases = d } in
        IsListed v
        → saved_auth_row
            (record { is_open = true; row = some (record { ref = n; user = v }); form = fill v f })
            v
          ≡ some (auth_row date v)
  unfolding auth_row auth_databases click_save handle_submit submit_for fill
  save_filled n u admin none f h = refl
  save_filled n u admin (some []) f h = refl
  save_filled n u viewer none f h = refl
  save_filled n u viewer (some []) f h = refl
  save_filled n u dev (some (x ∷ d)) f h = refl
  save_filled n u dev none f h = absurd (ground (arith, h))
  save_filled n u dev (some []) f h = absurd (ground (arith, h))
  save_filled n u admin (some (x ∷ d)) f h = absurd (ground (arith, h))
  save_filled n u viewer (some (x ∷ d)) f h = absurd (ground (arith, h))

  save_opened :
      (s : Editor EditAuth.form) (u : Row AuthUserListItem)
      → IsListed u.user
      → IsNew EditAuth.form s.row u
      → saved_auth_row (steps EditAuth.form (pencil u ∷ []) s) u.user ≡ some (auth_row date u.user)
  unfolding steps step
  save_opened s u h n =
      rw (other_of_new EditAuth.form s.row u n)
        (save_filled u.ref u.user u.user.role u.user.databases s.form h)

  -- After anything that was opened, typed and closed: if a row of the users of the dashboard is opened
  -- that is another object than the one before, of a user who has databases exactly if it is a "dev",
  -- then "Save" without a change sends what leaves the row as it is shown.
  pub auth_row-click_save :
      (es : List (Event EditAuth.form)) (u : Row AuthUserListItem)
      → IsListed u.user
      → IsNew EditAuth.form (steps EditAuth.form es (mounted EditAuth.form)).row u
      → saved_auth_row (steps EditAuth.form (es ++ pencil u ∷ []) (mounted EditAuth.form)) u.user
        ≡ some (auth_row date u.user)
  auth_row-click_save es u h n =
      ap (λ s. saved_auth_row s u.user)
        (steps-append EditAuth.form es (pencil u ∷ []) (mounted EditAuth.form))
      ∙ save_opened (steps EditAuth.form es (mounted EditAuth.form)) u h n

  -- The same for the users of the databases.
  abbrev pub saved_postgres_row : Editor EditPostgres.form → User → Option PostgresRow
  saved_postgres_row s u =
      Option.map (λ v. postgres_row date (stored u v)) (EditPostgres.click_save false s)

  save_opened_user :
      (s : Editor EditPostgres.form) (u : Row User)
      → is_nil u.user.allowed_ips ≡ false
      → IsNew EditPostgres.form s.row u
      → saved_postgres_row (steps EditPostgres.form (pencil u ∷ []) s) u.user
        ≡ some (postgres_row date u.user)
  unfolding steps step EditPostgres.click_save EditPostgres.handle_submit EditPostgres.submit_for
      EditPostgres.fill postgres_row
  save_opened_user s u h n = rw (other_of_new EditPostgres.form s.row u n, h) refl

  -- After anything that was opened, typed and closed: if a row of the users of the databases is opened
  -- that is another object than the one before, of a user with some address, then "Save" without a
  -- change sends what leaves the row as it is shown.
  pub postgres_row-click_save :
      (es : List (Event EditPostgres.form)) (u : Row User)
      → is_nil u.user.allowed_ips ≡ false
      → IsNew EditPostgres.form (steps EditPostgres.form es (mounted EditPostgres.form)).row u
      → saved_postgres_row
          (steps EditPostgres.form (es ++ pencil u ∷ []) (mounted EditPostgres.form))
          u.user
        ≡ some (postgres_row date u.user)
  postgres_row-click_save es u h n =
      ap (λ s. saved_postgres_row s u.user)
        (steps-append EditPostgres.form es (pencil u ∷ []) (mounted EditPostgres.form))
      ∙ save_opened_user (steps EditPostgres.form es (mounted EditPostgres.form)) u h n
