-- ===== src/Tables/Page.antt =====
-- backend/ui/src/routes/DatabaseDetail.tsx: the tabs of the page, and the way to its tables.
use pgmanager.Common.{
  Integer, Bool, ◌||◌, Option, none, some, List, [], ◌∷◌, ◌++◌, Text, text, is_empty, if◌then◌else◌,
}
use pgmanager.Schemas.{AuthUser, TableInfo}
use pgmanager.Auth.{is_admin, is_dev}
use pgmanager.Api.{Request, Fields}
use pgmanager.Api.Databases.{fetch_tables}

pub data Tab : Type 0 where
  tables query : Tab

-- The tabs that can be chosen.
unfoldable pub tabs : Option AuthUser → List Tab
tabs user = tables ∷ (if is_admin user || is_dev user then query ∷ [] else [])

-- Whether the button "Create Table" is there.
unfoldable pub can_create : Option AuthUser → Bool
can_create user = is_admin user || is_dev user

-- The path that a click on a table leads to: neither name is encoded.
unfoldable pub table_path : Text → Text → Text
table_path name table = text "/databases/" ++ (name ++ (text "/tables/" ++ table))

-- The query of the tables, which is enabled if the path has a name.
unfoldable pub list_request : (Text → Text) → Option Text → Option (Request Fields)
list_request encode none = none
list_request encode (some name) = if is_empty name then none else some (fetch_tables encode name)

-- The card of a table; `locale` writes a number with the separators of the browser's language.
pub record Card : Type 0 where
  pub name : Text
  pub rows : Text
  pub path : Text

unfoldable pub card : (Integer → Text) → Text → TableInfo → Card
unfolding table_path
card locale database t = record {
  name = t.name;
  rows = text "~" ++ (locale t.row_count ++ text " rows");
  path = table_path database t.name;
}
