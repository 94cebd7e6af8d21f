-- ===== src/Tests/Names.antt =====
-- Names, types and identifiers.
use pgmanager.Common.{◌≡◌, ◌↔◌, none, some, ◌++◌, Text, text, trim, pos, arith}
use pgmanager.Sql.{quote_ident}
use pgmanager.Sql.Quoting.{lex_ident, lex_ident-quote_ident}
use pgmanager.Names.{parse_name, ok}
use pgmanager.Names.Identifier.{IsIdentifier, parse_name_iff}
use pgmanager.PgTypes.{build_type_string, parse_type_params}
use pgmanager.PgTypes.RoundTrip.{
  params, parsed, given, kept_scale, parse_type_params-build_type_string,
}

abbrev hostile : Text
hostile = text "a\"; DROP TABLE users; --"

lex_ident-quote_ident_example :
    lex_ident (quote_ident hostile ++ text " TO") ≡ some (hostile, text " TO")
unfolding text
lex_ident-quote_ident_example = lex_ident-quote_ident hostile (text " TO") (ground arith)

parse_name_iff_example :
    (parse_name (text " shop ") ≡ ok (text "shop"))
    ↔ ((text "shop" ≡ trim (text " shop ")) × IsIdentifier (trim (text " shop ")))
parse_name_iff_example = parse_name_iff (text " shop ") (text "shop")

parse_type_params-build_type_string_example :
    (parse_type_params (build_type_string (text "VARCHAR") (params (some (pos 20)) none none))
      ≡ parsed (text "VARCHAR") (some (pos 20)) none none)
    × (parse_type_params (build_type_string (text "CHAR") (params (some (pos 20)) none none))
        ≡ parsed (text "CHAR") (some (pos 20)) none none)
    × (parse_type_params
          (build_type_string (text "NUMERIC") (params none (some (pos 20)) (given (some 4))))
        ≡ parsed (text "NUMERIC") none (some (pos 20)) (kept_scale (some 4)))
parse_type_params-build_type_string_example =
    parse_type_params-build_type_string 20 none none none (some 4) (omega arith) (omega arith)
