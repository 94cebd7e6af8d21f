-- ===== src/Console/Panel.antt =====
-- backend/ui/src/components/SqlConsole.tsx: what is shown of the result and of the history.
use pgmanager.Common.{
  Integer, pos, Bool, false, not, Option, none, some, List, [], ◌∷◌, ◌++◌, map, Text, text,
  show_integer, is_nil, is_empty, ◌==◌, if◌then◌else◌,
}
use pgmanager.Schemas.{QueryResult}
use pgmanager.Rows.{Numbers}
use pgmanager.Rows.Grid.{Cell, cell}
use pgmanager.Console.{Console, Entry, Event, history_click}

-- A row of the history: the query, its duration, whether it is marked as an error, and what a click
-- does.
pub record Line (N : Type 0) : Type 0 where
  pub sql : Text
  pub duration : Text
  pub is_error : Bool
  pub click : Event N

pub record Panel (N : Type 0) : Type 0 where
  pub summary : Option Text
  pub lines : List (Line N)
  pub error : Option Text
  pub table : Option (List Text × List (List Cell))

-- An error that is not the empty text.
abbrev pub shown_error : Option Text → Option Text
shown_error none = none
shown_error (some []) = none
shown_error (some (c ∷ e)) = some (c ∷ e)

milliseconds : Integer → Text
milliseconds n = show_integer n ++ text "ms"

is_one : Integer → Bool
is_one (pos n) = n == 1
is_one n = false

-- `{result.duration}ms | {result.rowCount} row`, with an s unless there is one
unfoldable pub summary : {N : Type 0} → QueryResult N → Text
unfolding milliseconds is_one
summary r =
    milliseconds r.duration
    ++ (text " | "
        ++ (show_integer r.row_count
            ++ (text " row" ++ (if is_one r.row_count then [] else text "s"))))

has_error : Option Text → Bool
has_error none = false
has_error (some e) = not (is_empty e)

unfoldable pub line : {N : Type 0} → Entry → Line N
unfolding milliseconds has_error
line e = record {
  sql = e.sql;
  duration = milliseconds e.duration;
  is_error = has_error e.error;
  click = history_click e;
}

module _ (R : Numbers) where
  -- The table is there for a result with columns and without an error.
  abbrev pub table_of : QueryResult R.N → Option Text → Option (List Text × List (List Cell))
  table_of r none =
      if is_nil r.columns then none else some (r.columns, map (λ row. map (cell R) row) r.rows)
  table_of r (some e) = none

  unfoldable pub panel : Console R.N → Panel R.N
  unfolding summary line
  panel c = record {
    summary = elim c.result [ none ↦ none | some r ↦ some (summary r) ];
    lines = if c.show_history then map line c.history else [];
    error = elim c.result [ none ↦ none | some r ↦ shown_error r.error ];
    table = elim c.result [ none ↦ none | some r ↦ table_of r (shown_error r.error) ];
  }
