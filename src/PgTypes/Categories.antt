-- ===== src/PgTypes/Categories.antt =====
-- backend/ui/src/lib/pg-types.ts: `getTypeCategory` on the strings that the forms build.
use pgmanager.Common.{
  ℕ, zero, suc, ◌≡◌, refl, Option, none, some, [], ◌∷◌, Text, text, text_eq, starts_with_text,
  to_upper, to_lower, upper_char, lower_char, Integer, pos, arith, All,
}
use pgmanager.PgTypes.{
  PostgresTypeItem, postgresql_types, TypeParams, build_type_string, get_type_category,
}

upper_lower_char : (c : ℕ) → upper_char (lower_char c) ≡ upper_char c
upper_lower_char c = ground arith

pub to_upper-to_lower : (s : Text) → to_upper (to_lower s) ≡ to_upper s
unfolding to_upper to_lower
to_upper-to_lower [] = refl
to_upper-to_lower (c ∷ s) = cc (upper_lower_char c, to_upper-to_lower s)

-- The category of what is built from an offered type, for every choice of the parameters.
abbrev pub IsKept : TypeParams → PostgresTypeItem → Type 0
IsKept p t = get_type_category (build_type_string t.value p) ≡ t.category

offered :
    (l p s : Option Integer)
    → All (IsKept (record { length = l; precision = p; scale = s })) postgresql_types
unfolding postgresql_types build_type_string get_type_category text text_eq starts_with_text
    to_upper
offered none none s = ground arith
offered none (some p) none = ground arith
offered none (some p) (some (pos zero)) = ground arith
offered none (some p) (some (pos (suc s))) = ground arith
offered none (some p) (some s) = ground arith
offered (some l) none s = ground arith
offered (some l) (some p) none = ground arith
offered (some l) (some p) (some (pos zero)) = ground arith
offered (some l) (some p) (some (pos (suc s))) = ground arith
offered (some l) (some p) (some s) = ground arith

-- Whatever parameters are given to an offered type, the string that is built has the category that
-- the list states for the type; and the category of any string is that of the string in lower case.
pub get_type_category-build :
    (l p s : Option Integer) (type : Text)
    → All (IsKept (record { length = l; precision = p; scale = s })) postgresql_types
      × (get_type_category (to_lower type) ≡ get_type_category type)
unfolding get_type_category
get_type_category-build l p s type = (offered l p s, rw (to_upper-to_lower type))
