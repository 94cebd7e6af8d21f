-- ===== src/Tests/Requests.antt =====
-- The requests and their paths. The encoding of the tests writes a slash as %2F and a percent sign as
-- %25, and leaves the rest.
use pgmanager.Common.{
  ℕ, ◌≡◌, refl, true, some, List, [], ◌∷◌, Text, text, ◌==◌, if◌then◌else◌, arith,
}
use pgmanager.Schemas.{Value, WhereCondition, num, eq}
use pgmanager.Api.Segments.{has_no_slash, segments}
use pgmanager.Api.Databases.{delete_database, fetch_tables}
use pgmanager.Api.Data.{fetch_columns, drop_column, delete_row, insert_row, update_row}
use pgmanager.Api.Users.{remove_user_database}
use pgmanager.Api.Paths.{segments-path}

abbrev values : List (Text × Value ℕ)
values = (text "c", num 1) ∷ []

abbrev conditions : List (WhereCondition ℕ)
conditions = record { column = text "id"; operator = eq; value = some (num 2) } ∷ []

abbrev escaped : ℕ → Text → Text
escaped c s =
    if c == b'/'
    then b'%' ∷ b'2' ∷ b'F' ∷ s
    else if c == b'%'
    then b'%' ∷ b'2' ∷ b'5' ∷ s
    else c ∷ s

abbrev encode : Text → Text
encode [] = []
encode (c ∷ s) = escaped c (encode s)

no_slash : (s : Text) → has_no_slash (encode s) ≡ true
no_slash [] = refl
no_slash (c ∷ s) = ground (arith, no_slash s)

segments-path_example :
    (segments (delete_database encode (text "a/b")).path
      ≡ [] ∷ text "databases" ∷ encode (text "a/b") ∷ [])
    × (segments (fetch_tables encode (text "a/b")).path
        ≡ [] ∷ text "databases" ∷ encode (text "a/b") ∷ text "tables" ∷ [])
    × (segments (fetch_columns encode (text "a/b") (text "t")).path
        ≡ [] ∷ text "databases" ∷ encode (text "a/b") ∷ text "columns" ∷ encode (text "t") ∷ [])
    × (segments (insert_row encode (text "a/b") (text "t") values).path
        ≡ [] ∷ text "databases" ∷ encode (text "a/b") ∷ text "data" ∷ encode (text "t") ∷ [])
    × (segments (update_row encode (text "a/b") (text "t") values conditions).path
        ≡ [] ∷ text "databases" ∷ encode (text "a/b") ∷ text "data" ∷ encode (text "t") ∷ [])
    × (segments (delete_row encode (text "a/b") (text "t") conditions).path
        ≡ [] ∷ text "databases" ∷ encode (text "a/b") ∷ text "data" ∷ encode (text "t") ∷ [])
    × (segments (drop_column encode (text "a/b") (text "t") (text "c")).path
        ≡ []
          ∷ text "databases"
          ∷ encode (text "a/b")
          ∷ text "tables"
          ∷ encode (text "t")
          ∷ text "columns"
          ∷ encode (text "c")
          ∷ [])
    × (segments (remove_user_database encode (text "u") (text "a/b")).path
        ≡ [] ∷ text "users" ∷ encode (text "u") ∷ text "databases" ∷ encode (text "a/b") ∷ [])
segments-path_example =
    segments-path encode no_slash (text "a/b") (text "t") (text "c") (text "u") values conditions
