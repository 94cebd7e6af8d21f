-- ===== src/TypeForm/Groups.antt =====
-- The list of types as the forms show it: the `reduce` of AddColumnDialog.tsx, EditColumnDialog.tsx
-- and DatabaseDetail.tsx, which groups the types by their category.
pub mod Partition
use pgmanager.Common.{List, [], ◌∷◌, ◌++◌, Text, text, or_else}
use pgmanager.PgTypes.{
  Category, auto_increment, numeric, string, boolean, date_time, special, json, binary, network,
  other, PostgresTypeItem, postgresql_types,
}
use pgmanager.Dict.{lookup, insert}

unfoldable pub category_name : Category → Text
category_name auto_increment = text "Auto Increment"
category_name numeric = text "Numeric"
category_name string = text "String"
category_name boolean = text "Boolean"
category_name date_time = text "Date/Time"
category_name special = text "Special"
category_name json = text "JSON"
category_name binary = text "Binary"
category_name network = text "Network"
category_name other = text "Other"

-- `{ ...acc, [t.category]: [...(acc[t.category] || []), t] }`
unfoldable pub add_type :
    List (Text × List PostgresTypeItem) → PostgresTypeItem → List (Text × List PostgresTypeItem)
unfolding category_name
add_type acc t =
    insert (category_name t.category) (or_else (lookup (category_name t.category) acc) [] ++ t ∷ [])
      acc

-- The `reduce` from an accumulator.
unfoldable pub group_types :
    List (Text × List PostgresTypeItem)
    → List PostgresTypeItem
    → List (Text × List PostgresTypeItem)
unfolding add_type
group_types acc [] = acc
group_types acc (t ∷ ts) = group_types (add_type acc t) ts

-- The groups with their headings, in the order of the list.
unfoldable pub type_groups : List (Text × List PostgresTypeItem)
unfolding group_types postgresql_types
type_groups = group_types [] postgresql_types
