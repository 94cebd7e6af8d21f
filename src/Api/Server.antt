-- ===== src/Api/Server.antt =====
-- backend/ui/src/api/settings.ts, api/ssl.ts, api/logs.ts and the requests of api/backup.ts.
use pgmanager.Common.{
  Integer, ℕ, Bool, Option, none, some, List, [], ◌∷◌, ◌++◌, Text, text, if◌then◌else◌,
}
use pgmanager.Api.{
  Request, Fields, Json, post, put, delete, string, strings, number, optional, plain_get,
}
use pgmanager.Api.Data.{number_param, text_param, query_string}

unfoldable pub fetch_settings : Request Fields
fetch_settings = plain_get (text "/settings")

unfoldable pub update_settings : Text → Text → Request Fields
update_settings key value = record {
  method = put;
  path = text "/settings";
  body = some ((key, string value) ∷ []);
}

unfoldable pub fetch_ssl_status : Request Fields
fetch_ssl_status = plain_get (text "/ssl/status")

abbrev some_string : Option Text → Option Json
some_string none = none
some_string (some s) = some (string s)

abbrev some_number : Option Integer → Option Json
some_number none = none
some_number (some n) = some (number n)

unfoldable pub generate_ssl_certs : Option Text → Option Integer → Request Fields
generate_ssl_certs common_name validity_days = record {
  method = post;
  path = text "/ssl/generate";
  body = some (
      optional (text "commonName") (some_string common_name)
      ++ optional (text "validityDays") (some_number validity_days));
}

unfoldable pub upload_ssl_certs : {F : Type 0} → F → Request F
upload_ssl_certs form = record { method = post; path = text "/ssl/upload"; body = some form }

unfoldable pub enable_ssl_certs : Request Fields
enable_ssl_certs = record { method = post; path = text "/ssl/enable"; body = none }

unfoldable pub disable_ssl_certs : Request Fields
disable_ssl_certs = record { method = post; path = text "/ssl/disable"; body = none }

unfoldable pub delete_ssl_certs : Request Fields
delete_ssl_certs = record { method = delete; path = text "/ssl"; body = none }

-- `downloadCACert`; the contents of its answer are the browser's.
unfoldable pub download_ca_cert : Request Fields
download_ca_cert = plain_get (text "/ssl/download")

pub record LogFilter : Type 0 where
  pub username : Text
  pub action : Text
  pub database : Text
  pub from : Text
  pub to : Text
  pub limit : ℕ
  pub offset : ℕ

unfoldable pub log_params : LogFilter → List (Text × Text)
log_params p =
    text_param (text "username") p.username
    ++ (text_param (text "action") p.action
        ++ (text_param (text "database") p.database
            ++ (text_param (text "from") p.from
                ++ (text_param (text "to") p.to
                    ++ (number_param (text "limit") p.limit
                        ++ number_param (text "offset") p.offset)))))

unfoldable pub fetch_logs : (List (Text × Text) → Text) → LogFilter → Request Fields
unfolding log_params query_string
fetch_logs serialise p = plain_get (text "/logs" ++ query_string (serialise (log_params p)))

unfoldable pub fetch_backup_databases : Request Fields
fetch_backup_databases = plain_get (text "/backup/databases")

unfoldable pub fetch_backup_tables : (Text → Text) → Text → Request Fields
fetch_backup_tables encode database = plain_get (text "/backup/tables?db=" ++ encode database)

unfoldable pub backup_database : Text → Option (List Text) → Request Fields
backup_database database tables = record {
  method = post;
  path = text "/backup/create";
  body = some ((text "database", string database) ∷ optional (text "tables") (some_tables tables));
}
  where
    some_tables : Option (List Text) → Option Json
    some_tables none = none
    some_tables (some ts) = some (strings ts)

-- The fields of the form beside the file.
unfoldable pub inspect_backup : {F : Type 0} → F → Request (F × Fields)
inspect_backup file = record {
  method = post;
  path = text "/backup/inspect";
  body = some (file, []);
}

-- `String(dropFirst)`
unfoldable pub restore_backup : {F : Type 0} → F → Text → Bool → Request (F × Fields)
restore_backup file database drop_first = record {
  method = post;
  path = text "/backup/restore";
  body = some (
    file,
    (text "database", string database)
        ∷ (text "dropFirst", string (if drop_first then text "true" else text "false"))
        ∷ [],
  );
}
