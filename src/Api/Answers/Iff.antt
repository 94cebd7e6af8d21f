-- ===== src/Api/Answers/Iff.antt =====
-- When the functions that fetch return data.
use pgmanager.Common.{◌≡◌, ◌↔◌, refl, true, false, Option, none, some, List, Text, ◌==◌, arith}
use pgmanager.Schemas.{
  User, AuthUserListItem, Value, DataResult, QueryResult, ColumnInfo, AuditLogResponse,
}
use pgmanager.Schemas.Audit.{IsAuditLogResponse, audit_log_response_schema-Reads}
use pgmanager.Schemas.Zod.{Json, Schema, Reads, IsArray, IsObject, Zod}
use pgmanager.Schemas.Answers.{
  user_schema, auth_user_list_item_schema, column_info_schema, data_result_schema,
  query_result_schema, audit_log_response_schema,
}
use pgmanager.Schemas.Meaning.{
  IsUser, user_schema-Reads, IsAuthUserListItem, auth_user_list_item_schema-Reads,
}
use pgmanager.Schemas.Results.{
  data_result_schema-Reads, query_result_schema-Reads, column_info_schema-Reads, IsColumnInfo,
  IsDataResult, IsQueryResult,
}
use pgmanager.Api.{Response, Answer, value, undefined, is_ok, request}
use pgmanager.Api.Failures.{request_iff}
use pgmanager.Api.Answers.{
  fetched, parsed, parse, error_of, fetch, fetch_users, fetch_auth_users, fetch_data, execute_query,
  fetch_columns, fetch_logs,
}

-- A response with data: its status is from 200 to 299 and not 204, and its body is JSON that stands
-- for them.
abbrev pub Holds : {A : Type 0} → (Option Json → A → Type 0) → Response Json → A → Type 0
Holds R r a =
    (is_ok r ≡ true) × ((r.status == 204) ≡ false) × ((j : Json) × (r.json ≡ some j) × R (some j) a)

module _ {A : Type 0} (s : Schema A) (R : Option Json → A → Type 0) (reads : Reads s R) where
  parsed_iff : (o : Option A) (a : A) → (parsed o ≡ fetched a) ↔ (o ≡ some a)
  parsed_iff none a = (λ h. absurd (ground (arith, h)), λ h. absurd (ground (arith, h)))
  parsed_iff (some b) a = (λ h. ground (arith, h), λ h. ground (arith, h))

  parse_accepts :
      (v : Answer Json) (a : A)
      → ((j : Json) × (v ≡ value j) × R (some j) a)
      → parse s v ≡ fetched a
  parse_accepts v a h = rw h.1 (rw ((reads (some h.0) a).1 h.2) refl)

  module _ (present : (a : A) → ¬ R none a) where
    parse_iff :
        (v : Answer Json) (a : A)
        → (parse s v ≡ fetched a) ↔ ((j : Json) × (v ≡ value j) × R (some j) a)
    parse_iff (value j) a =
        (λ h. (j, refl, (reads (some j) a).0 ((parsed_iff _ a).0 h)), parse_accepts (value j) a)
    parse_iff undefined a = (
      λ h. absurd (present a ((reads none a).0 ((parsed_iff _ a).0 h))),
      parse_accepts undefined a,
    )
    parse_iff v a = (λ h. absurd (ground (arith, h)), parse_accepts v a)

    fetch_iff : (z : Zod) (r : Response Json) (a : A) → (fetch z s r ≡ fetched a) ↔ Holds R r a
    fetch_iff z r a = (
      λ h.
          let (j, e, k) = (parse_iff (request (error_of z) r) a).0 h in
          let (ok, content, json) = (request_iff (error_of z) r j).0 e in
          (ok, content, (j, json, k)),
      λ h.
          let (j, json, k) = h.2 in
          (parse_iff (request (error_of z) r) a).1
            (j, (request_iff (error_of z) r j).1 (h.0, h.1, json), k),
    )

module _ {A : Type 0} (R : (Text → Option Json) → A → Type 0) where
  none-IsArray : (xs : List A) → ¬ IsArray (IsObject R) none xs
  none-IsArray xs h = ground (arith, h.1)

  none-IsObject : (a : A) → ¬ IsObject R none a
  none-IsObject a h = ground (arith, h.1)

module _ (z : Zod) where
  list_reads :
      {A : Type 0} (s : Schema A) (R : (Text → Option Json) → A → Type 0)
      → Reads s (IsObject R)
      → Reads (z.array s) (IsArray (IsObject R))
  list_reads s R reads = z.array_reads s (IsObject R) reads

  -- `fetchUsers` and `fetchAuthUsers` return a list exactly when the status of the response is from 200
  -- to 299 and not 204 and its body is an array of objects that stand one by one for the users of the
  -- list. A user without the property `allowedIps` stands for one who may connect from 0.0.0.0/0, a
  -- signed-in user without `databases` for one with no such list; any other property is needed, and
  -- those that are not named are skipped.
  pub fetch_users_iff :
      (r : Response Json) (us : List User) (vs : List AuthUserListItem)
      → ((fetch_users z r ≡ fetched us) ↔ Holds (IsArray (IsObject IsUser)) r us)
        × ((fetch_auth_users z r ≡ fetched vs) ↔ Holds (IsArray (IsObject IsAuthUserListItem)) r vs)
  unfolding fetch_users fetch_auth_users
  fetch_users_iff r us vs = (
    fetch_iff (z.array (user_schema z)) (IsArray (IsObject IsUser))
        (list_reads (user_schema z) IsUser (user_schema-Reads z)) (none-IsArray IsUser) z r us,
    fetch_iff (z.array (auth_user_list_item_schema z)) (IsArray (IsObject IsAuthUserListItem))
        (list_reads (auth_user_list_item_schema z) IsAuthUserListItem
          (auth_user_list_item_schema-Reads z))
        (none-IsArray IsAuthUserListItem) z r vs,
  )

  module _ {N : Type 0} (view : Option Json → Value N) where
    pub fetch_data_iff :
        (r : Response Json) (d : DataResult N)
        → (fetch_data z view r ≡ fetched d) ↔ Holds (IsObject (IsDataResult view)) r d
    unfolding fetch_data
    fetch_data_iff r d =
        fetch_iff (data_result_schema z view) (IsObject (IsDataResult view))
          (data_result_schema-Reads z view) (none-IsObject (IsDataResult view)) z r d

    pub execute_query_iff :
        (r : Response Json) (q : QueryResult N)
        → (execute_query z view r ≡ fetched q) ↔ Holds (IsObject (IsQueryResult view)) r q
    unfolding execute_query
    execute_query_iff r q =
        fetch_iff (query_result_schema z view) (IsObject (IsQueryResult view))
          (query_result_schema-Reads z view) (none-IsObject (IsQueryResult view)) z r q

    -- `fetchColumns`, `fetchData`, `executeQuery` and `fetchLogs` return data exactly when the status of
    -- the response is from 200 to 299 and not 204 and its body stands for them: an array of objects that
    -- stand for the columns, or an object that stands for the page of rows, for the result of the query
    -- or for the page of entries. The rows are arrays of any values, the default of a column is a text
    -- or null, the error of a result may be absent, and of an entry the table, the address and the
    -- detail may be absent or null.
    pub fetch_results_iff :
        (r : Response Json) (cs : List ColumnInfo) (d : DataResult N) (q : QueryResult N)
        (a : AuditLogResponse Json)
        → ((fetch_columns z r ≡ fetched cs) ↔ Holds (IsArray (IsObject IsColumnInfo)) r cs)
          × ((fetch_data z view r ≡ fetched d) ↔ Holds (IsObject (IsDataResult view)) r d)
          × ((execute_query z view r ≡ fetched q) ↔ Holds (IsObject (IsQueryResult view)) r q)
          × ((fetch_logs z r ≡ fetched a) ↔ Holds (IsObject IsAuditLogResponse) r a)
    unfolding fetch_columns fetch_logs
    fetch_results_iff r cs d q a = (
      fetch_iff (z.array (column_info_schema z)) (IsArray (IsObject IsColumnInfo))
          (list_reads (column_info_schema z) IsColumnInfo (column_info_schema-Reads z))
          (none-IsArray IsColumnInfo) z r cs,
      fetch_data_iff r d,
      execute_query_iff r q,
      fetch_iff (audit_log_response_schema z) (IsObject IsAuditLogResponse)
          (audit_log_response_schema-Reads z) (none-IsObject IsAuditLogResponse) z r a,
    )
