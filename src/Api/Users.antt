-- ===== src/Api/Users.antt =====
-- backend/ui/src/api/users.ts: the requests.
use pgmanager.Common.{Bool, Option, none, some, List, [], ◌∷◌, ◌++◌, Text, text}
use pgmanager.Schemas.{Access, read, write, ddl, full}
use pgmanager.Api.{
  Request, Fields, Json, post, put, delete, string, strings, optional, non_empty, plain_get,
}

abbrev pub access_text : Access → Text
access_text read = text "read"
access_text write = text "write"
access_text ddl = text "ddl"
access_text full = text "full"

-- `password || undefined`
abbrev given_password : Option Text → Option Json
given_password none = none
given_password (some s) = non_empty s

-- `allowedIps && allowedIps.length > 0 ? allowedIps : undefined`
abbrev given_ips : Option (List Text) → Option Json
given_ips none = none
given_ips (some []) = none
given_ips (some (ip ∷ ips)) = some (strings (ip ∷ ips))

unfoldable pub fetch_users : Request Fields
fetch_users = plain_get (text "/users")

unfoldable pub create_user :
    Text → List Text → Access → Option Text → Option (List Text) → Request Fields
create_user username databases access password allowed_ips = record {
  method = post;
  path = text "/users";
  body = some (
      (text "username", string username)
        ∷ (text "databases", strings databases)
        ∷ (text "access", string (access_text access))
        ∷ optional (text "password") (given_password password)
      ++ optional (text "allowedIps") (given_ips allowed_ips));
}

-- The options of `updateUser`; a field that is not given is not in the body.
pub record UserOptions : Type 0 where
  pub password : Option Text
  pub access : Option Access
  pub generate_password : Option Bool
  pub allowed_ips : Option (List Text)
  pub databases : Option (List Text)

module _ (encode : Text → Text) where
  unfoldable pub update_user : Text → UserOptions → Request UserOptions
  update_user username opts = record {
    method = put;
    path = text "/users/" ++ encode username;
    body = some opts;
  }

  unfoldable pub add_user_database : Text → Text → Request Fields
  add_user_database username database = record {
    method = post;
    path = text "/users/" ++ (encode username ++ text "/databases");
    body = some ((text "database", string database) ∷ []);
  }

  unfoldable pub remove_user_database : Text → Text → Request Fields
  remove_user_database username database = record {
    method = delete;
    path = text "/users/" ++ (encode username ++ (text "/databases/" ++ encode database));
    body = none;
  }

  unfoldable pub delete_user : Text → Request Fields
  delete_user username = record {
    method = delete;
    path = text "/users/" ++ encode username;
    body = none;
  }
