-- ===== src/Api/Databases.antt =====
-- backend/ui/src/api/databases.ts and api/pgbouncer.ts: the requests.
use pgmanager.Common.{Integer, Bool, none, some, List, [], ◌∷◌, ◌++◌, Text, text, if◌then◌else◌}
use pgmanager.Api.{Request, Fields, post, put, delete, string, flag, number, plain_get}

unfoldable pub fetch_databases : Bool → Request Fields
fetch_databases show_system =
    plain_get (text "/databases" ++ (if show_system then text "?showSystem=true" else []))

unfoldable pub create_database : Text → Request Fields
create_database name = record {
  method = post;
  path = text "/databases";
  body = some ((text "name", string name) ∷ []);
}

-- A column in the body of `createTable`.
pub record NewColumn : Type 0 where
  pub name : Text
  pub type : Text
  pub nullable : Bool
  pub is_primary_key : Bool

unfoldable pub fetch_pgbouncer_databases : Request Fields
fetch_pgbouncer_databases = plain_get (text "/pgbouncer/databases")

-- The name is put into the URL as it is.
unfoldable pub toggle_pgbouncer_database : Text → Bool → Request Fields
toggle_pgbouncer_database name allowed = record {
  method = put;
  path = text "/pgbouncer/databases/" ++ name;
  body = some ((text "allowed", flag allowed) ∷ []);
}

pub record PgbouncerConfig : Type 0 where
  pub pool_mode : Text
  pub default_pool_size : Integer
  pub max_client_conn : Integer

unfoldable pub fetch_pgbouncer_config : Request Fields
fetch_pgbouncer_config = plain_get (text "/pgbouncer/config")

unfoldable pub update_pgbouncer_config : PgbouncerConfig → Request Fields
update_pgbouncer_config c = record {
  method = put;
  path = text "/pgbouncer/config";
  body = some (
      (text "poolMode", string c.pool_mode)
      ∷ (text "defaultPoolSize", number c.default_pool_size)
      ∷ (text "maxClientConn", number c.max_client_conn)
      ∷ []);
}

module _ (encode : Text → Text) where
  unfoldable pub delete_database : Text → Request Fields
  delete_database name = record {
    method = delete;
    path = text "/databases/" ++ encode name;
    body = none;
  }

  unfoldable pub fetch_tables : Text → Request Fields
  fetch_tables db_name = plain_get (text "/databases/" ++ (encode db_name ++ text "/tables"))

  unfoldable pub create_table : Text → Text → List NewColumn → Request (Text × List NewColumn)
  create_table db_name name columns = record {
    method = post;
    path = text "/databases/" ++ (encode db_name ++ text "/tables");
    body = some (name, columns);
  }
