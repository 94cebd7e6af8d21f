-- ===== src/Rows.antt =====
-- The rows of a table: lib/parseValue.ts, components/tabs/DataTab.tsx, the dialogs InsertRowDialog,
-- EditRowDialog and DeleteRowConfirm of components/dialogs, and routes/TableDetail.tsx, all of
-- backend/ui/src. The floating-point numbers of JavaScript are a parameter.
pub mod Where
pub mod Edit
pub mod Insert
pub mod Detail
pub mod Grid
pub mod Typed
use pgmanager.Common.{
  ℕ, ◌≡◌, ◌≢◌, Bool, true, false, ◌||◌, Option, none, some, List, [], ◌∷◌, Text, text, text_eq,
  text_includes, is_empty, to_upper, if◌then◌else◌,
}
use pgmanager.Schemas.{Value, null, bool, num, str, compound}

-- The numbers, `Number(s)` (`none` is NaN) and `String(n)`.
pub record Numbers : Type 1 where
  pub N : Type 0
  pub number : Text → Option N
  pub show_number : N → Text

-- What the language states of `String` and `Number` on the finite numbers, but for -0: the text of
-- a number is read back as it, and is neither empty nor the word NULL.
pub record IsReadBack (R : Numbers) (n : R.N) : Type 0 where
  pub read_back : R.number (R.show_number n) ≡ some n
  pub not_empty : R.show_number n ≢ []
  pub not_null : R.show_number n ≢ text "NULL"

-- The test of a numeric type in `parseValue`.
unfoldable pub is_numeric : Text → Bool
is_numeric t =
    text_includes t (text "INT")
    || text_includes t (text "NUMERIC")
    || text_eq t (text "REAL")
    || text_eq t (text "DOUBLE PRECISION")

module _ (R : Numbers) where
  parse_number : Text → Option R.N → Value R.N
  parse_number raw none = str raw
  parse_number raw (some n) = num n

  unfoldable pub parse_value : Text → Text → Value R.N
  unfolding parse_number
  parse_value raw type =
      let t = to_upper type in
      if text_eq raw [] || text_eq raw (text "NULL")
      then null
      else if is_numeric t
      then parse_number raw (R.number raw)
      else if text_eq t (text "BOOLEAN")
      then bool (text_eq raw (text "true") || text_eq raw (text "1"))
      else str raw

  -- `String(v)`
  unfoldable pub show_value : Value R.N → Text
  show_value null = text "null"
  show_value (bool true) = text "true"
  show_value (bool false) = text "false"
  show_value (num n) = R.show_number n
  show_value (str s) = s
  show_value (compound j s) = s
