-- ===== src/TypeForm.antt =====
-- The type inputs that AddColumnDialog.tsx, EditColumnDialog.tsx (backend/ui/src/components/dialogs)
-- and DatabaseDetail.tsx (backend/ui/src/routes) repeat: a type from the list, and the length, or
-- the precision and scale, that are shown for some types.
pub mod Shown
pub mod Groups
use pgmanager.Common.{Bool, false, Option, none, some, Text, text_eq, find}
use pgmanager.PgTypes.{PostgresTypeItem, TypeParams, postgresql_types, build_type_string}
use pgmanager.Ui.{optional_int}

-- `POSTGRESQL_TYPES.find((t) => t.value === type)`
unfoldable pub type_def : Text → Option PostgresTypeItem
unfolding postgresql_types
type_def type = find (λ t. text_eq t.value type) postgresql_types

unfoldable pub has_length : Text → Bool
unfolding type_def
has_length type = elim (type_def type) [ none ↦ false | some t ↦ t.has_length ]

unfoldable pub has_precision : Text → Bool
unfolding type_def
has_precision type = elim (type_def type) [ none ↦ false | some t ↦ t.has_precision ]

-- `buildTypeString` on the texts of the inputs.
unfoldable pub typed : Text → Text → Text → Text → Text
typed type length precision scale = build_type_string type (record {
  length = optional_int length;
  precision = optional_int precision;
  scale = optional_int scale;
})
