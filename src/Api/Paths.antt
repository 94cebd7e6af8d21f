-- ===== src/Api/Paths.antt =====
-- The paths of the requests, read by a server.
use pgmanager.Common.{ℕ, ◌≡◌, refl, sym, ap, ◌∙◌, Bool, true, List, [], ◌∷◌, ◌++◌, Text, text}
use pgmanager.Schemas.{Value, WhereCondition}
use pgmanager.Api.Segments.{segments, has_no_slash, segments_end, segments_slash}
use pgmanager.Api.Databases.{delete_database, fetch_tables, toggle_pgbouncer_database}
use pgmanager.Api.Data.{data_path, fetch_columns, insert_row, update_row, drop_column, delete_row}
use pgmanager.Api.Users.{remove_user_database}

abbrev piece : ℕ → List Text → Text
piece n [] = []
piece ℕ.zero (w ∷ ws) = w
piece (ℕ.suc n) (w ∷ ws) = piece n ws

module _ (encode : Text → Text) (no_slash : (s : Text) → has_no_slash (encode s) ≡ true) where
  -- A word, a name, and what is behind a further slash.
  one :
      (name : Text)
      → segments (text "/databases/" ++ encode name) ≡ [] ∷ text "databases" ∷ encode name ∷ []
  unfolding segments text
  one name = ap (λ ws. [] ∷ text "databases" ∷ ws) (segments_end (encode name) (no_slash name))

  two :
      (name t : Text)
      → segments (text "/databases/" ++ (encode name ++ b'/' ∷ t))
        ≡ [] ∷ text "databases" ∷ encode name ∷ segments t
  unfolding segments text
  two name t =
      ap (λ ws. [] ∷ text "databases" ∷ ws) (segments_slash (encode name) t (no_slash name))

  word_last :
      (word name : Text)
      → has_no_slash word ≡ true
      → segments (word ++ b'/' ∷ encode name) ≡ word ∷ encode name ∷ []
  word_last word name h =
      segments_slash word (encode name) h
      ∙ ap (◌∷◌ word) (segments_end (encode name) (no_slash name))

  word_more :
      (word name t : Text)
      → has_no_slash word ≡ true
      → segments (word ++ b'/' ∷ (encode name ++ b'/' ∷ t)) ≡ word ∷ encode name ∷ segments t
  word_more word name t h =
      segments_slash word (encode name ++ b'/' ∷ t) h
      ∙ ap (◌∷◌ word) (segments_slash (encode name) t (no_slash name))

  abbrev pieces : Text → Text → Text → List Text
  pieces db table column =
      []
      ∷ text "databases"
      ∷ encode db
      ∷ text "tables"
      ∷ encode table
      ∷ text "columns"
      ∷ encode column
      ∷ []

  drop_column_path :
      (db table column : Text)
      → segments (drop_column encode db table column).path
        ≡ []
          ∷ text "databases"
          ∷ encode db
          ∷ text "tables"
          ∷ encode table
          ∷ text "columns"
          ∷ encode column
          ∷ []
  unfolding drop_column text
  drop_column_path db table column =
      two db (text "tables/" ++ (encode table ++ (text "/columns/" ++ encode column)))
      ∙ ap (λ ws. [] ∷ text "databases" ∷ encode db ∷ ws)
          (word_more (text "tables") table (text "columns/" ++ encode column) refl
            ∙ ap (λ ws. text "tables" ∷ encode table ∷ ws) (word_last (text "columns") column refl))

  remove_user_database_path :
      (user db : Text)
      → segments (remove_user_database encode user db).path
        ≡ [] ∷ text "users" ∷ encode user ∷ text "databases" ∷ encode db ∷ []
  unfolding remove_user_database text segments
  remove_user_database_path user db =
      ap (λ ws. [] ∷ text "users" ∷ ws)
        (segments_slash (encode user) (text "databases/" ++ encode db) (no_slash user)
          ∙ ap (◌∷◌ (encode user)) (word_last (text "databases") db refl))

  data_path_pieces :
      (db table : Text)
      → segments (data_path encode db table)
        ≡ [] ∷ text "databases" ∷ encode db ∷ text "data" ∷ encode table ∷ []
  unfolding text
  data_path_pieces db table =
      two db (text "data/" ++ encode table)
      ∙ ap (λ ws. [] ∷ text "databases" ∷ encode db ∷ ws) (word_last (text "data") table refl)

  -- If the encoding of a name holds no slash, then the paths for deleting a database, listing tables
  -- and columns, inserting, updating and deleting rows, dropping a column and removing a user's
  -- database, cut at their slashes, are the fixed words and the encoded names, each in its place,
  -- whatever the names hold and whatever the rows and the conditions are.
  pub segments-path :
      {N : Type 0} (db table column user : Text) (values : List (Text × Value N))
      (conditions : List (WhereCondition N))
      → (segments (delete_database encode db).path ≡ [] ∷ text "databases" ∷ encode db ∷ [])
        × (segments (fetch_tables encode db).path
            ≡ [] ∷ text "databases" ∷ encode db ∷ text "tables" ∷ [])
        × (segments (fetch_columns encode db table).path
            ≡ [] ∷ text "databases" ∷ encode db ∷ text "columns" ∷ encode table ∷ [])
        × (segments (insert_row encode db table values).path
            ≡ [] ∷ text "databases" ∷ encode db ∷ text "data" ∷ encode table ∷ [])
        × (segments (update_row encode db table values conditions).path
            ≡ [] ∷ text "databases" ∷ encode db ∷ text "data" ∷ encode table ∷ [])
        × (segments (delete_row encode db table conditions).path
            ≡ [] ∷ text "databases" ∷ encode db ∷ text "data" ∷ encode table ∷ [])
        × (segments (drop_column encode db table column).path
            ≡ []
              ∷ text "databases"
              ∷ encode db
              ∷ text "tables"
              ∷ encode table
              ∷ text "columns"
              ∷ encode column
              ∷ [])
        × (segments (remove_user_database encode user db).path
            ≡ [] ∷ text "users" ∷ encode user ∷ text "databases" ∷ encode db ∷ [])
  unfolding delete_database fetch_tables fetch_columns insert_row update_row delete_row text
  segments-path db table column user values conditions = (
    one db,
    two db (text "tables")
        ∙ ap (λ ws. [] ∷ text "databases" ∷ encode db ∷ ws) (segments_end (text "tables") refl),
    two db (text "columns/" ++ encode table)
        ∙ ap (λ ws. [] ∷ text "databases" ∷ encode db ∷ ws) (word_last (text "columns") table refl),
    data_path_pieces db table,
    data_path_pieces db table,
    data_path_pieces db table,
    drop_column_path db table column,
    remove_user_database_path user db,
  )

  -- If the encoding of a name holds no slash and different names have different encodings, two
  -- requests that drop a column and have one path drop the same column of the same table of the
  -- same database.
  pub drop_column-injective :
      ((s t : Text) → encode s ≡ encode t → s ≡ t)
      → (db table column db' table' column' : Text)
      → (drop_column encode db table column).path ≡ (drop_column encode db' table' column').path
      → (db ≡ db') × (table ≡ table') × (column ≡ column')
  drop_column-injective injective db table column db' table' column' h =
      let e : pieces db table column ≡ pieces db' table' column' =
        sym (drop_column_path db table column)
        ∙ (ap segments h ∙ drop_column_path db' table' column') in
      (
        injective db db' (ap (piece 2) e),
        injective table table' (ap (piece 4) e),
        injective column column' (ap (piece 6) e),
      )

-- The name of a database that is two parts without slashes and a slash between them becomes two
-- pieces of the path that allows the database in PgBouncer.
pub toggle_pgbouncer_database-cut :
    (a b : Text) (allowed : Bool)
    → has_no_slash a ≡ true
    → has_no_slash b ≡ true
    → segments (toggle_pgbouncer_database (a ++ b'/' ∷ b) allowed).path
      ≡ [] ∷ text "pgbouncer" ∷ text "databases" ∷ a ∷ b ∷ []
unfolding toggle_pgbouncer_database text segments
toggle_pgbouncer_database-cut a b allowed h k =
    ap (λ ws. [] ∷ text "pgbouncer" ∷ text "databases" ∷ ws)
      (segments_slash a b h ∙ ap (◌∷◌ a) (segments_end b k))
