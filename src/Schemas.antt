-- ===== src/Schemas.antt =====
-- backend/ui/src/lib/schemas.ts: the types that the schemas infer. A field that may be absent or
-- null is an `Option`.
pub mod Zod
pub mod Answers
pub mod Meaning
pub mod Results
pub mod Audit
use pgmanager.Common.{Integer, Text, Bool, Option, List}

-- `z.enum(["admin", "dev", "viewer"])`
pub data Role : Type 0 where
  admin dev viewer : Role

-- `z.enum(["read", "write", "ddl", "full"])`
pub data Access : Type 0 where
  read write ddl full : Access

pub record Database : Type 0 where
  pub name : Text
  pub protected : Bool

pub record User : Type 0 where
  pub username : Text
  pub databases : List Text
  pub access : Access
  pub allowed_ips : List Text
  pub created_at : Text

pub record AuthUser : Type 0 where
  pub username : Text
  pub role : Role

pub record AuthUserListItem : Type 0 where
  pub id : Integer
  pub username : Text
  pub role : Role
  pub databases : Option (List Text)
  pub created_at : Text

pub record TableInfo : Type 0 where
  pub name : Text
  pub row_count : Integer

pub record ColumnInfo : Type 0 where
  pub name : Text
  pub type : Text
  pub nullable : Bool
  pub default : Option Text
  pub is_primary_key : Bool

pub record ColumnDef : Type 0 where
  pub name : Text
  pub type : Text
  pub nullable : Bool
  pub default : Option Text
  pub is_primary_key : Bool

-- A value of a row, as JSON brings it: `compound` is an array or an object: its JSON, which
-- is what is sent, and what `String` makes of it. The numbers are those of `Rows.Numbers`.
pub data Value (N : Type 0) : Type 0 where
  null : Value N
  bool : Bool → Value N
  num : N → Value N
  str : Text → Value N
  compound : Text → Text → Value N

pub record DataResult (N : Type 0) : Type 0 where
  pub columns : List Text
  pub rows : List (List (Value N))
  pub total : Integer

pub data Operator : Type 0 where
  eq ne gt lt ge le like is_null is_not_null : Operator

pub record WhereCondition (N : Type 0) : Type 0 where
  pub column : Text
  pub operator : Operator
  pub value : Option (Value N)

pub record QueryResult (N : Type 0) : Type 0 where
  pub columns : List Text
  pub rows : List (List (Value N))
  pub row_count : Integer
  pub duration : Integer
  pub error : Option Text

-- `detail` is any value of JSON. A field that may be absent or null is `none` in both cases.
pub record AuditLogEntry (J : Type 0) : Type 0 where
  pub id : Integer
  pub username : Text
  pub action : Text
  pub database : Text
  pub table_name : Option Text
  pub detail : Option J
  pub ip_address : Option Text
  pub created_at : Text

pub record AuditLogResponse (J : Type 0) : Type 0 where
  pub entries : List (AuditLogEntry J)
  pub total : Integer

pub record CreateUserResponse : Type 0 where
  pub username : Text
  pub password : Text
  pub databases : List Text
  pub connection_string : Text
  pub access : Access
  pub allowed_ips : List Text
  pub created_at : Text
