-- ===== src/TypeForm/Shown.antt =====
-- The type string depends on no input that is not shown.
use pgmanager.Common.{◌≡◌, [], Text, text, text_eq, All, arith, if◌then◌else◌}
use pgmanager.PgTypes.{PostgresTypeItem, postgresql_types, build_type_string}
use pgmanager.TypeForm.{has_length, has_precision, typed}

module _ (l p s : Text) where
  -- The inputs that are not shown for a type count as empty.
  abbrev pub IsShownOnly : PostgresTypeItem → Type 0
  IsShownOnly t =
      typed t.value l p s
      ≡ typed t.value (if has_length t.value then l else [])
          (if has_precision t.value then p else []) (if has_precision t.value then s else [])

  -- For each of the types that are offered, the type string is that of the inputs that the form shows
  -- for the type: what was typed into an input that is now hidden counts as not typed.
  pub typed-IsShownOnly : All IsShownOnly postgresql_types
  unfolding postgresql_types typed has_length has_precision build_type_string text text_eq
  typed-IsShownOnly = ground arith
