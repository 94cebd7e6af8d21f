-- ===== src/Tests/Rows.antt =====
-- The rows of a table and the files made from results.
use pgmanager.PgTypes.{postgresql_types}
use pgmanager.Rows.Typed.{IsMeant, parse_value-IsMeant}
use pgmanager.Common.{
  pos, ℕ, ◌≡◌, ◌↔◌, refl, true, none, some, [], ◌∷◌, map, Text, text, text_eq, text_includes,
  starts_with_text, to_upper, All, arith, show_nat, digits_value, is_empty,
}
use pgmanager.Schemas.{null, num, str, QueryResult}
use pgmanager.Dict.{insert_all}
use pgmanager.Rows.{IsReadBack, is_numeric}
use pgmanager.Rows.Where.{build_row_where, edit_where}
use pgmanager.Rows.Where.Exact.{AreNames, Holds, build_row_where_iff}
use pgmanager.Rows.Edit.{fill, field_text, saved}
use pgmanager.Rows.Edit
use pgmanager.Rows.Edit.Unedited.{AllStable, named, submit-fill}
use pgmanager.Csv.{export_csv, needs_quotes}
use pgmanager.Csv.Reader.{read_csv}
use pgmanager.Csv.RoundTrip.{shown, read_csv-export_csv}
use pgmanager.Tests.Fixtures.{ne, naturals, two_columns, two_names, a_row}

two_names-AreNames : AreNames two_names
unfolding text text_eq is_empty
two_names-AreNames = (refl, (ne (text "label") (text "id") refl, tt), (refl, tt, tt))

build_row_where_iff_example :
    All (Holds two_names (num 8 ∷ null ∷ [])) (build_row_where a_row two_names)
    ↔ ((num 8 ∷ null ∷ []) ≡ a_row)
build_row_where_iff_example =
    build_row_where_iff two_names a_row (num 8 ∷ null ∷ []) two_names-AreNames refl refl

seven-IsReadBack : IsReadBack naturals 7
unfolding show_nat digits_value text is_empty
seven-IsReadBack = record { read_back = refl; not_empty = ground arith; not_null = ground arith }

a_row-AllStable : AllStable naturals two_columns a_row
unfolding is_numeric text text_eq text_includes to_upper
a_row-AllStable = ((refl, seven-IsReadBack), ((ground arith, ground arith, refl, refl), tt))

submit-fill_example :
    Edit.submit naturals
      (some a_row)
      (some two_columns)
      (fill naturals true (some a_row) (some two_columns) [])
    ≡ Edit.update_row
        (insert_all [] (named naturals two_columns a_row))
        (edit_where a_row two_columns)
submit-fill_example =
    submit-fill naturals two_columns a_row [] two_names-AreNames refl a_row-AllStable

abbrev result : QueryResult ℕ
result = record {
  columns = two_names;
  rows = a_row ∷ (num 8 ∷ str (text "a,b \"c\"") ∷ []) ∷ [];
  row_count = pos 2;
  duration = pos 3;
  error = none;
}

read_csv-export_csv_example :
    (file : Text) × (export_csv naturals (some result) ≡ some file)
    × (read_csv file ≡ two_names ∷ map (map (shown naturals)) result.rows)
unfolding text text_includes starts_with_text needs_quotes
read_csv-export_csv_example =
    read_csv-export_csv naturals result (text "id") (text "label" ∷ []) refl (refl, (refl, tt))
      (tt, (tt, tt))

parse_value-IsMeant_example : All (IsMeant naturals (text "12")) postgresql_types
parse_value-IsMeant_example = parse_value-IsMeant naturals (text "12")
