-- ===== src/Tests/Fixtures.antt =====
-- Data for the tests.
use pgmanager.Common.{
  ℕ, ◌≡◌, ◌≢◌, Bool, true, false, Option, none, some, List, [], ◌∷◌, Text, text, text_eq,
  text_eq_iff, is_empty, show_nat, digits_value, arith, any, is_digit, not, if◌then◌else◌, ◌||◌,
}
use pgmanager.Schemas.{ColumnInfo, Value, num, str}
use pgmanager.Rows.{Numbers}

-- Texts that the test tells apart are not equal.
pub ne : (s t : Text) → text_eq s t ≡ false → s ≢ t
ne s t h e = absurd (ground (arith, h, (text_eq_iff s t).1 e))

-- The natural numbers as the numbers of the model.
abbrev read_number : Text → Option ℕ
read_number s =
    if is_empty s || any (λ c. not (is_digit c)) s then none else some (digits_value 0 s)

abbrev pub naturals : Numbers
naturals = record { N = ℕ; number = read_number; show_number = show_nat }

abbrev pub column : Text → Text → Bool → Option Text → ColumnInfo
column name type nullable default = record {
  name = name;
  type = type;
  nullable = nullable;
  default = default;
  is_primary_key = false;
}

abbrev pub id_column : ColumnInfo
id_column = column (text "id") (text "integer") false (some (text "nextval('s')"))

abbrev pub label_column : ColumnInfo
label_column = column (text "label") (text "text") true none

abbrev pub two_columns : List ColumnInfo
two_columns = id_column ∷ label_column ∷ []

abbrev pub two_names : List Text
two_names = text "id" ∷ text "label" ∷ []

abbrev pub a_row : List (Value ℕ)
a_row = num 7 ∷ str (text "seven") ∷ []
