-- ===== src/Logs/Listing.antt =====
-- backend/ui/src/routes/Logs.tsx: the rows of the table. `stringify` and `pretty` are the two uses of
-- `JSON.stringify`, `time` the text of a date.
use pgmanager.Common.{
  ◌==◌, Integer, pos, neg, nan, show_integer, Bool, true, false, Option, none, some, List, [], ◌∷◌,
  map, Text, text, or_else, if◌then◌else◌,
}
use pgmanager.Schemas.{AuditLogEntry, AuditLogResponse}
use pgmanager.Schemas.Zod.{Json, null, bool, num, str, arr, obj}
use pgmanager.Logs.{Cell, log_detail}

-- A row: the cells that are texts, and the cell of the detail.
pub record Row : Type 0 where
  pub created_at : Text
  pub username : Text
  pub action : Text
  pub database : Text
  pub table_name : Text
  pub detail : Cell
  pub ip_address : Text

pub data Listing : Type 0 where
  loading no_entries : Listing
  rows : List Row → Listing

-- `—`, a dash
abbrev pub absent : Text
absent = 8212 ∷ []

is_zero : Integer → Bool
is_zero (pos n) = n == 0
is_zero (neg n) = n == 0
is_zero nan = true

module _ (stringify pretty : Json → Text) (time : Text → Text) where
  -- `rawStr` and `prettyStr`, `none` for what is falsy
  unfoldable pub written : Option Json → Option (Text × Text)
  unfolding is_zero
  written none = none
  written (some null) = none
  written (some (bool false)) = none
  written (some (bool true)) = some (text "true", text "true")
  written (some (num n)) = if is_zero n then none else some (show_integer n, show_integer n)
  written (some (str [])) = none
  written (some (str (c ∷ t))) = some (c ∷ t, c ∷ t)
  written (some (arr vs)) = some (stringify (arr vs), pretty (arr vs))
  written (some (obj ps)) = some (stringify (obj ps), pretty (obj ps))

  unfoldable pub row : AuditLogEntry Json → Row
  unfolding written log_detail
  row e = record {
    created_at = time e.created_at;
    username = e.username;
    action = e.action;
    database = e.database;
    table_name = or_else e.table_name absent;
    detail = log_detail (written e.detail);
    ip_address = or_else e.ip_address absent;
  }

  unfoldable pub listing : Bool → Option (AuditLogResponse Json) → Listing
  unfolding row
  listing is_loading answer = if is_loading then loading else found answer
    where
      entries : List (AuditLogEntry Json) → Listing
      entries [] = no_entries
      entries (e ∷ es) = rows (map row (e ∷ es))

      found : Option (AuditLogResponse Json) → Listing
      found none = no_entries
      found (some a) = entries a.entries
