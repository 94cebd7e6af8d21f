-- ===== src/Users/Table.antt =====
-- backend/ui/src/components/AuthUsersTable.tsx and PostgresUsersTable.tsx: what the tables show of the
-- users. `toLocaleDateString` of a date is a parameter.
pub mod Kept
use pgmanager.Common.{
  Bool, not, ◌&&◌, Option, none, some, List, [], ◌∷◌, map, Text, text, text_eq, is_nil, or_else,
  to_upper, if◌then◌else◌,
}
use pgmanager.Schemas.{
  Role, admin, dev, viewer, Access, read, write, ddl, full, User, AuthUserListItem,
}
use pgmanager.Api.Auth.{role_text}
use pgmanager.Api.Users.{access_text}
use pgmanager.Users.CreateAuth.{is_dev_role}

pub data Variant : Type 0 where
  default secondary destructive outline : Variant

pub record Badge : Type 0 where
  pub label : Text
  pub variant : Variant

unfoldable pub role_variant : Role → Variant
role_variant admin = destructive
role_variant dev = outline
role_variant viewer = secondary

-- `accessColors`
unfoldable pub access_variant : Access → Variant
access_variant read = default
access_variant write = secondary
access_variant ddl = outline
access_variant full = destructive

abbrev pub secondary_badge : Text → Badge
secondary_badge s = record { label = s; variant = secondary }

unfoldable pub address_badge : Text → Badge
address_badge ip =
    if text_eq ip (text "0.0.0.0/0")
    then record { label = text "any"; variant = outline }
    else record { label = ip; variant = secondary }

-- A table while it loads, without users, or with its rows.
pub data View (A : Type 0) : Type 0 where
  loading nobody : View A
  rows : List A → View A

unfoldable pub table_view : {U A : Type 0} → (U → A) → Bool → List U → View A
table_view row is_loading users =
    if is_loading then loading else if is_nil users then nobody else rows (map row users)

-- A row of AuthUsersTable; without databases it shows a dash.
pub record AuthRow : Type 0 where
  pub username : Text
  pub role : Badge
  pub databases : List Badge
  pub created : Text

-- A row of PostgresUsersTable; the schema of a user has filled in missing addresses.
pub record PostgresRow : Type 0 where
  pub username : Text
  pub databases : List Badge
  pub access : Badge
  pub allowed_ips : List Badge
  pub created : Text

unfoldable pub auth_databases : Role → Option (List Text) → List Badge
auth_databases role none = []
auth_databases role (some dbs) = if is_dev_role role then map secondary_badge dbs else []

module _ (date : Text → Text) where
  unfoldable pub auth_row : AuthUserListItem → AuthRow
  unfolding role_variant auth_databases
  auth_row u = record {
    username = u.username;
    role = record { label = to_upper (role_text u.role); variant = role_variant u.role };
    databases = auth_databases u.role u.databases;
    created = date u.created_at;
  }

  unfoldable pub postgres_row : User → PostgresRow
  unfolding access_variant address_badge
  postgres_row u = record {
    username = u.username;
    databases = map secondary_badge u.databases;
    access = record { label = to_upper (access_text u.access); variant = access_variant u.access };
    allowed_ips = map address_badge u.allowed_ips;
    created = date u.created_at;
  }
