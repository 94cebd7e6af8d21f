-- ===== src/Tests/Session.antt =====
-- The session and the completion of the console.
use mathlib.Core.Option as Option
use pgmanager.Common.{
  Bool, pos, ◌≡◌, refl, true, false, Option, none, some, List, [], ◌∷◌, Text, text, text_eq, any,
  if◌then◌else◌,
}
use pgmanager.Schemas.{dev, AuthUser, ColumnInfo, TableInfo}
use pgmanager.Dict.{lookup}
use pgmanager.Auth.{
  Session, users_at, follow, Event, logs_in, logs_out, check, mount, start, step, steps, shows,
  setup_page,
}
use pgmanager.Auth.Access.{IsAllowed, follow-IsAllowed, steps-visitor_page}
use pgmanager.Console.Completion.{all_columns, schema, is_missing, completed, lookup-schema}
use pgmanager.Tests.Fixtures.{two_columns}

abbrev developer : AuthUser
developer = record { username = text "ann"; role = dev }

abbrev session : Session
session = record { user = some developer; loading = false; needs_setup = false }

follow-IsAllowed_example : IsAllowed session.user (follow 1 session users_at)
follow-IsAllowed_example = follow-IsAllowed session users_at refl

-- A wrong password, and a logout.
abbrev attempts : List Event
attempts = logs_in false none ∷ logs_out true ∷ []

steps-visitor_page_example :
    follow 1 (step (check (some true)) (steps attempts (mount none start))) users_at
    ≡ shows setup_page
steps-visitor_page_example = steps-visitor_page attempts true users_at (refl, (tt, tt))

-- A server that knows the columns of one table.
abbrev fetch_columns : Text → Option (List ColumnInfo)
fetch_columns name = if text_eq name (text "t") then some two_columns else none

abbrev tables : List TableInfo
tables =
    record { name = text "t"; row_count = pos 2 }
    ∷ record { name = text "new"; row_count = pos 0 }
    ∷ []

abbrev old : List TableInfo
old = record { name = text "t"; row_count = pos 1 } ∷ []

abbrev is_inherited : Text → Bool
is_inherited name = text_eq name (text "constructor")

lookup-schema_example :
    Option.map
      (lookup (text "new"))
      (schema is_inherited (some tables) (all_columns fetch_columns old))
    ≡ (if any (is_missing fetch_columns) old
        then none
        else some (completed fetch_columns is_inherited tables old (text "new")))
unfolding text text_eq
lookup-schema_example = lookup-schema fetch_columns is_inherited tables old (text "new") refl
