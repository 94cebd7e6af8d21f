-- ===== src/Api/Answers.antt =====
-- backend/ui/src/api: what the functions that fetch return. The answer of the server goes through
-- `request` and then through the `parse` of a schema.
pub mod Iff
pub mod Errors
use pgmanager.Common.{Option, none, some, List, Text}
use pgmanager.Schemas.{
  Database, User, AuthUserListItem, TableInfo, ColumnInfo, Value, DataResult, QueryResult,
  AuditLogResponse, CreateUserResponse,
}
use pgmanager.Schemas.Zod.{Json, Schema, Zod}
use pgmanager.Schemas.Answers.{
  error_schema, database_schema, user_schema, create_user_response_schema,
  auth_user_list_item_schema, reset_password_schema, table_info_schema, column_info_schema,
  data_result_schema, query_result_schema, audit_log_response_schema,
}
use pgmanager.Api.{ApiError, Response, Answer, value, undefined, request}

-- What a call ends with: its result, the error of `parse`, that of `response.json()`, or an
-- `ApiError`.
pub data Fetched (A : Type 0) : Type 0 where
  fetched : A → Fetched A
  zod_error bad_json : Fetched A
  thrown : ApiError → Fetched A

module _ {A : Type 0} where
  abbrev pub parsed : Option A → Fetched A
  parsed none = zod_error
  parsed (some a) = fetched a

  -- `schema.parse(data)`, where `data` is what `request` returns.
  abbrev pub parse : Schema A → Answer Json → Fetched A
  parse s (value j) = parsed (s (some j))
  parse s undefined = parsed (s none)
  parse s Answer.bad_json = bad_json
  parse s (Answer.thrown e) = thrown e

module _ (z : Zod) where
  -- `ErrorResponseSchema.safeParse(body)`
  abbrev pub error_of : Json → Option Text
  error_of j = error_schema z (some j)

  abbrev pub fetch : {A : Type 0} → Schema A → Response Json → Fetched A
  fetch s r = parse s (request error_of r)

  unfoldable pub fetch_databases : Response Json → Fetched (List Database)
  fetch_databases r = fetch (z.array (database_schema z)) r

  unfoldable pub create_database : Response Json → Fetched Database
  create_database r = fetch (database_schema z) r

  unfoldable pub fetch_tables : Response Json → Fetched (List TableInfo)
  fetch_tables r = fetch (z.array (table_info_schema z)) r

  unfoldable pub fetch_users : Response Json → Fetched (List User)
  fetch_users r = fetch (z.array (user_schema z)) r

  unfoldable pub create_user : Response Json → Fetched CreateUserResponse
  create_user r = fetch (create_user_response_schema z) r

  unfoldable pub fetch_auth_users : Response Json → Fetched (List AuthUserListItem)
  fetch_auth_users r = fetch (z.array (auth_user_list_item_schema z)) r

  unfoldable pub reset_auth_user_password : Response Json → Fetched Text
  reset_auth_user_password r = fetch (reset_password_schema z) r

  unfoldable pub fetch_columns : Response Json → Fetched (List ColumnInfo)
  fetch_columns r = fetch (z.array (column_info_schema z)) r

  unfoldable pub fetch_logs : Response Json → Fetched (AuditLogResponse Json)
  fetch_logs r = fetch (audit_log_response_schema z) r

  module _ {N : Type 0} (view : Option Json → Value N) where
    unfoldable pub fetch_data : Response Json → Fetched (DataResult N)
    fetch_data r = fetch (data_result_schema z view) r

    unfoldable pub execute_query : Response Json → Fetched (QueryResult N)
    execute_query r = fetch (query_result_schema z view) r
