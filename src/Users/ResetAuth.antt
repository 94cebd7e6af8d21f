-- ===== src/Users/ResetAuth.antt =====
-- backend/ui/src/components/dialogs/ResetAuthPasswordDialog.tsx. As in `Users.Reset`, the page keeps
-- the dialog mounted. `reset` is the password that the server returns for a request.
pub mod Owned
use pgmanager.Common.{
  run, Bool, true, false, not, ◌&&◌, ◌||◌, Option, none, some, List, [], ◌∷◌, Text, is_empty,
  is_some, if◌then◌else◌,
}
use pgmanager.Api.{Request, Fields}
use pgmanager.Api.Auth.{reset_auth_user_password}

-- What the mutation is called with.
pub record Payload : Type 0 where
  pub username : Text
  pub password : Option Text

-- `pending` is the request that is under way.
pub record Dialog : Type 0 where
  pub is_open : Bool
  pub user : Option Text
  pub input : Text
  pub result_password : Option Text
  pub pending : Option Payload

unfoldable pub mounted : Dialog
mounted = record {
  is_open = false;
  user = none;
  input = [];
  result_password = none;
  pending = none;
}

unfoldable pub handle_close : Dialog → Dialog
handle_close s = record s { is_open = false; input = []; result_password = none }

-- The button "Reset Password".
unfoldable pub submit_for : Option Text → Dialog → Dialog
submit_for none s = s
submit_for (some username) s = record s {
  pending =
      some (record {
        username = username;
        password = if is_empty s.input then none else some s.input;
      });
}

-- `mutationFn`
unfoldable pub request : (Text → Text) → Payload → Request Fields
request encode p = reset_auth_user_password encode p.username p.password

pub data Event : Type 0 where
  opened typed : Text → Event
  submit closed refused answered : Event

-- Whether the input and its button are there.
has_form : Dialog → Bool
has_form s = s.is_open && not (is_some s.result_password)

module _ (reset : Payload → Text) where
  -- `onSuccess`
  unfoldable pub answer_to : Option Payload → Dialog → Dialog
  answer_to none s = s
  answer_to (some p) s = record s { result_password = some (reset p); pending = none }

  unfoldable pub step : Event → Dialog → Dialog
  unfolding handle_close submit_for has_form answer_to
  step (opened username) s =
      if s.is_open then s else record s { is_open = true; user = some username }
  step (typed w) s = if has_form s then record s { input = w } else s
  step submit s = if has_form s && not (is_some s.pending) then submit_for s.user s else s
  step closed s = if s.is_open then handle_close s else s
  step refused s = record s { pending = none }
  step answered s = answer_to s.pending s

  unfoldable pub steps : List Event → Dialog → Dialog
  unfolding step
  steps es s = run step es s
