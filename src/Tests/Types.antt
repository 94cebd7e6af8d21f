-- ===== src/Tests/Types.antt =====
-- The list of types and the dialog for a new column.
use mathlib.Core.List.{Perm}
use pgmanager.Common.{◌≡◌, none, List, [], ◌∷◌, text, or_else, All}
use pgmanager.PgTypes.{postgresql_types}
use pgmanager.Dict.{lookup}
use pgmanager.TypeForm.Groups.{group_types}
use pgmanager.TypeForm.Groups.Partition.{members, in_category, group_types-perm}
use pgmanager.Columns.Add.{
  Event, opens, adds, inputs, answered, type_name, choose_type, type_length, mounted, steps,
}
use pgmanager.Columns.Add.Sent.{IsColumn, steps-IsColumn}

group_types-perm_example :
    Perm (members (group_types [] postgresql_types)) postgresql_types
    × (or_else (lookup (text "Special") (group_types [] postgresql_types)) []
        ≡ in_category (text "Special") postgresql_types)
group_types-perm_example = group_types-perm postgresql_types (text "Special")

abbrev events : List Event
events =
    opens
    ∷ inputs (type_name (text "code"))
    ∷ inputs (choose_type (text "CHAR"))
    ∷ inputs (type_length (text "8"))
    ∷ adds
    ∷ answered none
    ∷ []

steps-IsColumn_example : All IsColumn (steps (text "shop") (text "t") events mounted).sent
steps-IsColumn_example = steps-IsColumn (text "shop") (text "t") events
