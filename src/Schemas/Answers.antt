-- ===== src/Schemas/Answers.antt =====
-- backend/ui/src/lib/schemas.ts: the schemas of the server's answers. The package zod is a parameter.
use pgmanager.Common.{Integer, ◌>>=◌, Option, none, some, List, [], ◌∷◌, map, Text, text}
use pgmanager.Schemas.{
  Role, admin, dev, viewer, Access, read, write, ddl, full, Database, User, AuthUser,
  AuthUserListItem, TableInfo, ColumnInfo, Value, DataResult, QueryResult, AuditLogEntry,
  AuditLogResponse, CreateUserResponse,
}
use pgmanager.Schemas.Zod.{Json, arr, obj, Schema, Zod}

abbrev pub roles : List (Text × Role)
roles = (text "admin", admin) ∷ (text "dev", dev) ∷ (text "viewer", viewer) ∷ []

abbrev pub accesses : List (Text × Access)
accesses =
    (text "read", read) ∷ (text "write", write) ∷ (text "ddl", ddl) ∷ (text "full", full) ∷ []

-- `.default(["0.0.0.0/0"])`
abbrev pub anywhere : List Text
anywhere = text "0.0.0.0/0" ∷ []

-- What is neither absent nor null.
abbrev pub given : {A : Type 0} → Option (Option A) → Option A
given none = none
given (some o) = o

-- What an answer's value is as a value of a row: `number` reads a number, `stringify` and
-- `string` are what `JSON.stringify` and `String` make of an array or an object.
module _ {N : Type 0} (number : Integer → N) (stringify string : Json → Text) where
  abbrev pub value_of : Option Json → Value N
  value_of none = Value.null
  value_of (some Json.null) = Value.null
  value_of (some (Json.bool b)) = Value.bool b
  value_of (some (Json.num n)) = Value.num (number n)
  value_of (some (Json.str t)) = Value.str t
  value_of (some (arr vs)) = Value.compound (stringify (arr vs)) (string (arr vs))
  value_of (some (obj ps)) = Value.compound (stringify (obj ps)) (string (obj ps))

abbrev pub rows :
    {N : Type 0} → (Option Json → Value N) → List (List (Option Json)) → List (List (Value N))
rows view rs = map (λ row. map view row) rs

module _ (z : Zod) where
  unfoldable pub error_schema : Schema Text
  error_schema = z.object (λ get. z.string (get (text "error")))

  unfoldable pub database_schema : Schema Database
  database_schema = z.object (λ get. do
    name ← z.string (get (text "name"))
    protected ← z.boolean (get (text "protected"))
    some (record { name = name; protected = protected }))

  unfoldable pub user_schema : Schema User
  user_schema = z.object (λ get. do
    username ← z.string (get (text "username"))
    databases ← z.array z.string (get (text "databases"))
    access ← z.enum accesses (get (text "access"))
    allowed_ips ← z.default anywhere (z.array z.string) (get (text "allowedIps"))
    created_at ← z.string (get (text "createdAt"))
    some (record {
      username = username;
      databases = databases;
      access = access;
      allowed_ips = allowed_ips;
      created_at = created_at;
    }))

  unfoldable pub create_user_response_schema : Schema CreateUserResponse
  create_user_response_schema = z.object (λ get. do
    username ← z.string (get (text "username"))
    password ← z.string (get (text "password"))
    databases ← z.array z.string (get (text "databases"))
    connection_string ← z.string (get (text "connectionString"))
    access ← z.enum accesses (get (text "access"))
    allowed_ips ← z.default anywhere (z.array z.string) (get (text "allowedIps"))
    created_at ← z.string (get (text "createdAt"))
    some (record {
      username = username;
      password = password;
      databases = databases;
      connection_string = connection_string;
      access = access;
      allowed_ips = allowed_ips;
      created_at = created_at;
    }))

  unfoldable pub auth_user_schema : Schema AuthUser
  auth_user_schema = z.object (λ get. do
    username ← z.string (get (text "username"))
    role ← z.enum roles (get (text "role"))
    some (record { username = username; role = role }))

  unfoldable pub auth_user_list_item_schema : Schema AuthUserListItem
  auth_user_list_item_schema = z.object (λ get. do
    id ← z.number (get (text "id"))
    username ← z.string (get (text "username"))
    role ← z.enum roles (get (text "role"))
    databases ← z.optional (z.array z.string) (get (text "databases"))
    created_at ← z.string (get (text "createdAt"))
    some (record {
      id = id;
      username = username;
      role = role;
      databases = databases;
      created_at = created_at;
    }))

  unfoldable pub reset_password_schema : Schema Text
  reset_password_schema = z.object (λ get. z.string (get (text "password")))

  unfoldable pub table_info_schema : Schema TableInfo
  table_info_schema = z.object (λ get. do
    name ← z.string (get (text "name"))
    row_count ← z.number (get (text "rowCount"))
    some (record { name = name; row_count = row_count }))

  unfoldable pub column_info_schema : Schema ColumnInfo
  column_info_schema = z.object (λ get. do
    name ← z.string (get (text "name"))
    type ← z.string (get (text "type"))
    nullable ← z.boolean (get (text "nullable"))
    default ← z.nullable z.string (get (text "default"))
    is_primary_key ← z.boolean (get (text "isPrimaryKey"))
    some (record {
      name = name;
      type = type;
      nullable = nullable;
      default = default;
      is_primary_key = is_primary_key;
    }))

  unfoldable pub audit_log_entry_schema : Schema (AuditLogEntry Json)
  audit_log_entry_schema = z.object (λ get. do
    id ← z.number (get (text "id"))
    username ← z.string (get (text "username"))
    action ← z.string (get (text "action"))
    database ← z.string (get (text "database"))
    table_name ← z.optional (z.nullable z.string) (get (text "tableName"))
    detail ← z.optional (z.nullable z.any) (get (text "detail"))
    ip_address ← z.optional (z.nullable z.string) (get (text "ipAddress"))
    created_at ← z.string (get (text "createdAt"))
    some (record {
      id = id;
      username = username;
      action = action;
      database = database;
      table_name = given table_name;
      detail = given (given detail);
      ip_address = given ip_address;
      created_at = created_at;
    }))

  unfoldable pub audit_log_response_schema : Schema (AuditLogResponse Json)
  unfolding audit_log_entry_schema
  audit_log_response_schema = z.object (λ get. do
    entries ← z.array audit_log_entry_schema (get (text "entries"))
    total ← z.number (get (text "total"))
    some (record { entries = entries; total = total }))

  -- The values of the rows may be anything.
  module _ {N : Type 0} (view : Option Json → Value N) where
    unfoldable pub data_result_schema : Schema (DataResult N)
    data_result_schema = z.object (λ get. do
      columns ← z.array z.string (get (text "columns"))
      rs ← z.array (z.array z.any) (get (text "rows"))
      total ← z.number (get (text "total"))
      some (record { columns = columns; rows = rows view rs; total = total }))

    unfoldable pub query_result_schema : Schema (QueryResult N)
    query_result_schema = z.object (λ get. do
      columns ← z.array z.string (get (text "columns"))
      rs ← z.array (z.array z.any) (get (text "rows"))
      row_count ← z.number (get (text "rowCount"))
      duration ← z.number (get (text "duration"))
      error ← z.optional z.string (get (text "error"))
      some (record {
        columns = columns;
        rows = rows view rs;
        row_count = row_count;
        duration = duration;
        error = error;
      }))
