-- ===== src/Api/Auth.antt =====
-- backend/ui/src/api/auth.ts: the requests.
use pgmanager.Common.{Option, none, some, List, [], ◌∷◌, ◌++◌, Text, text, is_empty, if◌then◌else◌}
use pgmanager.Schemas.{Role, admin, dev, viewer}
use pgmanager.Api.{
  Request, Fields, post, put, delete, string, strings, optional, non_empty, plain_get, Json,
}

abbrev pub role_text : Role → Text
role_text admin = text "admin"
role_text dev = text "dev"
role_text viewer = text "viewer"

-- `databases || undefined`
abbrev some_strings : Option (List Text) → Option Json
some_strings none = none
some_strings (some ts) = some (strings ts)

unfoldable pub fetch_me : Request Fields
fetch_me = plain_get (text "/auth/me")

abbrev credentials : Text → Text → Fields
credentials username password =
    (text "username", string username) ∷ (text "password", string password) ∷ []

unfoldable pub login : Text → Text → Request Fields
login username password = record {
  method = post;
  path = text "/auth/login";
  body = some (credentials username password);
}

unfoldable pub logout : Request Fields
logout = record { method = post; path = text "/auth/logout"; body = none }

unfoldable pub setup : Text → Text → Request Fields
setup username password = record {
  method = post;
  path = text "/auth/setup";
  body = some (credentials username password);
}

unfoldable pub fetch_setup_check : Request Fields
fetch_setup_check = plain_get (text "/auth/setup-check")

unfoldable pub change_password : Text → Text → Request Fields
change_password current new = record {
  method = put;
  path = text "/auth/password";
  body = some ((text "current_password", string current) ∷ (text "new_password", string new) ∷ []);
}

unfoldable pub create_auth_user : Text → Text → Role → Option (List Text) → Request Fields
create_auth_user username password role databases = record {
  method = post;
  path = text "/auth/users";
  body = some (
      (text "username", string username) ∷ optional (text "password") (non_empty password)
      ++ ((text "role", string (role_text role))
          ∷ optional (text "databases") (some_strings databases)));
}

unfoldable pub fetch_auth_users : Request Fields
fetch_auth_users = plain_get (text "/auth/users")

module _ (encode : Text → Text) where
  unfoldable pub update_auth_user : Text → Role → Option (List Text) → Request Fields
  update_auth_user username role databases = record {
    method = put;
    path = text "/auth/users/" ++ encode username;
    body = some (
        (text "role", string (role_text role))
        ∷ optional (text "databases") (some_strings databases));
  }

  unfoldable pub delete_auth_user : Text → Request Fields
  delete_auth_user username = record {
    method = delete;
    path = text "/auth/users/" ++ encode username;
    body = none;
  }

  -- Without a password there is no body, and the server makes one up.
  unfoldable pub reset_auth_user_password : Text → Option Text → Request Fields
  reset_auth_user_password username password = record {
    method = post;
    path = text "/auth/users/" ++ (encode username ++ text "/reset-password");
    body = given password;
  }
    where
      given : Option Text → Option Fields
      given none = none
      given (some s) = if is_empty s then none else some ((text "password", string s) ∷ [])
