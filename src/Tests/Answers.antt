-- ===== src/Tests/Answers.antt =====
-- Answers of the server: lists of users, an empty table, a failing query and a missing database.
use pgmanager.Common.{
  Integer, pos, ◌⊎◌, Text, true, take, ◌≡◌, ◌↔◌, refl, false, Option, none, some, [], ◌∷◌, text,
  text_eq, arith,
}
use pgmanager.Dict.{lookup}
use pgmanager.Schemas.{
  User, read, AuthUserListItem, viewer, Value, DataResult, QueryResult, AuditLogResponse,
}
use pgmanager.Schemas.Zod.{Json, num, str, arr, obj, nil, cons, Props, end, prop, IsArray, IsObject}
use pgmanager.Schemas.Zod.Model.{zod}
use pgmanager.Schemas.Answers.{value_of, anywhere, user_schema}
use pgmanager.Schemas.Meaning.{IsUser, IsAuthUserListItem}
use pgmanager.Schemas.Results.{IsColumnInfo, IsDataResult, IsQueryResult}
use pgmanager.Schemas.Audit.{IsAuditLogResponse}
use pgmanager.Console.{Console}
use pgmanager.Console.Answers
use pgmanager.Console.Answers.{settle-recorded}
use pgmanager.Api.{ApiError, Response, is_ok, request}
use pgmanager.Api.Answers.{
  fetched, zod_error, thrown, fetch, fetch_users, fetch_auth_users, fetch_columns, fetch_data,
  execute_query, fetch_logs,
}
use pgmanager.Api.Answers.Iff.{Holds, fetch_users_iff, fetch_results_iff}
use pgmanager.Api.Answers.Errors.{HasNoRows, Says, rows-refused, fetch-thrown}

-- The server's answer to the list of users, in which the addresses are missing.
abbrev users_answer : Response Json
users_answer = record {
  status = 200;
  json = some (
      arr (
        cons
          (obj (
            prop (text "username") (str (text "ann")) (
              prop (text "databases") (arr (cons (str (text "shop")) nil)) (
                prop (text "access") (str (text "read"))
                  (prop (text "createdAt") (str (text "2024-05-01")) end)))))
          nil));
}

abbrev ann : User
ann = record {
  username = text "ann";
  databases = text "shop" ∷ [];
  access = read;
  allowed_ips = anywhere;
  created_at = text "2024-05-01";
}

abbrev bob : AuthUserListItem
bob = record {
  id = pos 7;
  username = text "bob";
  role = viewer;
  databases = none;
  created_at = text "2024-05-01";
}

fetch_users_iff_example :
    ((fetch_users zod users_answer ≡ fetched (ann ∷ []))
      ↔ Holds (IsArray (IsObject IsUser)) users_answer (ann ∷ []))
    × ((fetch_auth_users zod users_answer ≡ fetched (bob ∷ []))
        ↔ Holds (IsArray (IsObject IsAuthUserListItem)) users_answer (bob ∷ []))
fetch_users_iff_example = fetch_users_iff zod users_answer (ann ∷ []) (bob ∷ [])

abbrev view : Option Json → Value Integer
view v = value_of (λ n. n) (λ j. text "{}") (λ j. text "[object Object]") v

-- A failing query: null in place of the columns and the rows, and what went wrong.
abbrev failing : Props
failing = prop (text "columns") Json.null (
    prop (text "rows") Json.null (
      prop (text "rowCount") (num (pos 0)) (
        prop (text "duration") (num (pos 3))
          (prop (text "error") (str (text "relation does not exist")) end))))

abbrev failing_answer : Response Json
failing_answer = record { status = 200; json = some (obj failing) }

failing-HasNoRows : HasNoRows failing
unfolding lookup text text_eq
failing-HasNoRows vs h = ground (arith, h)

rows-refused_example :
    (fetch_data zod view failing_answer ≡ zod_error)
    × (execute_query zod view failing_answer ≡ zod_error)
rows-refused_example = rows-refused zod view failing_answer failing refl refl refl failing-HasNoRows

abbrev no_result : QueryResult Integer
no_result = record {
  columns = [];
  rows = [];
  row_count = pos 0;
  duration = pos 3;
  error = some (text "relation does not exist");
}

abbrev no_data : DataResult Integer
no_data = record { columns = []; rows = []; total = pos 0 }

abbrev no_entries : AuditLogResponse Json
no_entries = record { entries = []; total = pos 0 }

fetch_results_iff_example :
    ((fetch_columns zod failing_answer ≡ fetched [])
      ↔ Holds (IsArray (IsObject IsColumnInfo)) failing_answer [])
    × ((fetch_data zod view failing_answer ≡ fetched no_data)
        ↔ Holds (IsObject (IsDataResult view)) failing_answer no_data)
    × ((execute_query zod view failing_answer ≡ fetched no_result)
        ↔ Holds (IsObject (IsQueryResult view)) failing_answer no_result)
    × ((fetch_logs zod failing_answer ≡ fetched no_entries)
        ↔ Holds (IsObject IsAuditLogResponse) failing_answer no_entries)
fetch_results_iff_example =
    fetch_results_iff zod view failing_answer [] no_data no_result no_entries

abbrev missing_answer : Response Json
missing_answer = record {
  status = 404;
  json = some (obj (prop (text "error") (str (text "no such database")) end));
}

abbrev missing : ApiError
missing = record { message = text "no such database"; status = 404; tables = none }

fetch-thrown_example : (fetch zod zod.string missing_answer ≡ thrown missing) ↔ (
    (is_ok missing_answer ≡ false)
    × (missing.status ≡ missing_answer.status)
    × (missing.tables ≡ none)
    × Says missing_answer.json missing_answer.status missing.message)
fetch-thrown_example = fetch-thrown zod zod.string missing_answer missing

-- The one who may connect from everywhere is read.
users_read : fetch_users zod users_answer ≡ fetched (ann ∷ [])
unfolding fetch_users user_schema zod request lookup text text_eq
users_read = refl

abbrev no_format : Text → Option Text
no_format t = none

abbrev console : Console Integer
console = record {
  sql = text "select 1 from nowhere";
  result = none;
  history = [];
  show_history = true;
  sent = [];
}

settle-recorded_example :
    ((q : QueryResult Integer) × Holds (IsObject (IsQueryResult view)) failing_answer q
      × (Answers.settle
            (text "invalid")
            (text "no JSON")
            zod
            view
            no_format
            failing_answer
            9
            console
          ≡ record console {
            result = some q;
            history =
                record {
                  sql = console.sql;
                  duration = q.duration;
                  row_count = q.row_count;
                  timestamp = 9;
                  error = q.error;
                }
                ∷ take 49 console.history;
          }))
    ⊎ (((q : QueryResult Integer) → ¬ Holds (IsObject (IsQueryResult view)) failing_answer q)
        × (Answers.settle
              (text "invalid")
              (text "no JSON")
              zod
              view
              no_format
              failing_answer
              9
              console
            ≡ console))
settle-recorded_example =
    settle-recorded (text "invalid") (text "no JSON") zod view no_format failing_answer 9 console
