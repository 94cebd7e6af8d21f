-- ===== src/Tests/Columns.antt =====
-- The columns of a table.
use pgmanager.Common.{
  ◌≡◌, Bool, true, false, Option, none, some, List, [], ◌∷◌, Text, text, is_empty,
}
use pgmanager.Columns.Edit.{Form, Reply, answered, threw, name, mount, change, statements, save}
use pgmanager.Columns.Edit.Script.{script, apply_all, Alter, target, statements-script}
use pgmanager.Columns.Edit.Run.{Saved, save-Saved}
use pgmanager.Tests.Fixtures.{id_column}

abbrev renamed : Form
renamed = change (name (text "key")) (mount (some id_column))

statements-script_example :
    (acts : List Alter) × (statements (text "t") id_column renamed
      ≡ script (text "t") id_column.name acts)
    × (apply_all acts id_column ≡ target id_column renamed)
statements-script_example = statements-script (text "t") id_column renamed

-- A server that keeps the statements, and refuses those of a table with no name.
abbrev execute : Text → List Text → List Text × Reply
execute stmt log = if_named (is_empty stmt) stmt log
  where
    if_named : Bool → Text → List Text → List Text × Reply
    if_named true stmt log = (log, threw (text "empty"))
    if_named false stmt log = (stmt ∷ log, answered none)

save-Saved_example :
    (error : Option Text) × Saved execute
      (text "db")
      (text "t")
      (statements (text "t") id_column renamed)
      []
      (save execute (text "db") (text "t") (some id_column) renamed []).0
      error
      (save execute (text "db") (text "t") (some id_column) renamed []).1
save-Saved_example = save-Saved execute (text "db") (text "t") id_column renamed []
