-- ===== src/Csv.antt =====
-- backend/ui/src/components/SqlConsole.tsx: `exportCsv`, up to the text that it stores in a file.
pub mod Reader
pub mod RoundTrip
use pgmanager.Common.{
  Bool, true, false, ◌||◌, Option, none, some, List, [], ◌∷◌, ◌++◌, map, Text, text, text_includes,
  if◌then◌else◌,
}
use pgmanager.Schemas.{Value, null, bool, num, str, compound, QueryResult}
use pgmanager.Sql.{double_quotes}
use pgmanager.Rows.{Numbers, show_value}

-- The commas, quotes and line feeds that make a cell be quoted.
unfoldable pub needs_quotes : Text → Bool
needs_quotes s =
    text_includes s (b',' ∷ []) || text_includes s (b'"' ∷ []) || text_includes s (10 ∷ [])

unfoldable pub escape_cell : Text → Text
escape_cell s = if needs_quotes s then b'"' ∷ double_quotes s ++ b'"' ∷ [] else s

-- `parts.join(sep)`, for a separator of one unit
unfoldable pub join : Text → List Text → Text
join sep [] = []
join sep (s ∷ []) = s
join sep (s ∷ t ∷ parts) = s ++ (sep ++ join sep (t ∷ parts))

module _ (R : Numbers) where
  -- `null` is written as the word NULL and is not quoted.
  unfoldable pub csv_cell : Value R.N → Text
  csv_cell null = text "NULL"
  csv_cell v = escape_cell (show_value R v)

  unfoldable pub csv_row : List (Value R.N) → Text
  unfolding csv_cell
  csv_row row = join (b',' ∷ []) (map csv_cell row)

  -- The text of the file; there is none without a result or without columns.
  unfoldable pub export_csv : Option (QueryResult R.N) → Option Text
  unfolding csv_row
  export_csv none = none
  export_csv (some result) = elim result.columns [
    | [] ↦ none
    | c ∷ cs ↦ some (join (10 ∷ []) (join (b',' ∷ []) (c ∷ cs) ∷ map csv_row result.rows))
  ]
