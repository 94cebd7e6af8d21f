-- ===== src/Rows/Typed.antt =====
-- The values that `parseValue` makes for the types that the forms offer.
use pgmanager.Common.{
  Option-cases, Bool-cases, inl, inr, not, if◌then◌else◌, ◌∙◌, ◌≡◌, refl, true, false, ◌||◌, Option,
  none, some, List, [], ◌∷◌, Text, text, text_eq, text_includes, starts_with_text, to_upper,
  to_lower, All, arith,
}
use pgmanager.Schemas.{Value, null, bool, num, str}
use pgmanager.PgTypes.{Category, numeric, boolean, PostgresTypeItem, postgresql_types}
use pgmanager.PgTypes.Categories.{to_upper-to_lower}
use pgmanager.Rows.{Numbers, is_numeric, parse_number, parse_value}

module _ (R : Numbers) where
  -- A text that is read as a number if it is one, and otherwise kept.
  number_or_text : Text → Option R.N → Value R.N
  number_or_text raw none = str raw
  number_or_text raw (some n) = num n

  -- What a text stands for in a column of an offered type: of the numeric types all but MONEY hold
  -- numbers.
  unfoldable pub meant : Category → Text → Text → Value R.N
  unfolding number_or_text
  meant numeric type raw =
      if text_eq type (text "MONEY") then str raw else number_or_text raw (R.number raw)
  meant boolean type raw = bool (text_eq raw (text "true") || text_eq raw (text "1"))
  meant c type raw = str raw

  -- The tests of `parseValue` on a type, by its category.
  abbrev Fits : Category → Text → Type 0
  Fits numeric t =
      (is_numeric (to_upper t) ≡ not (text_eq t (text "MONEY")))
      × (text_eq (to_upper t) (text "BOOLEAN") ≡ false)
  Fits boolean t =
      (is_numeric (to_upper t) ≡ false) × (text_eq (to_upper t) (text "BOOLEAN") ≡ true)
  Fits c t = (is_numeric (to_upper t) ≡ false) × (text_eq (to_upper t) (text "BOOLEAN") ≡ false)

  parse_value-meant_of :
      (c : Category) (raw t : Text)
      → Fits c t
      → parse_value R raw t
        ≡ (if text_eq raw [] || text_eq raw (text "NULL") then null else meant c t raw)
  unfolding parse_value parse_number meant number_or_text
  parse_value-meant_of numeric raw t h = elim (Bool-cases (text_eq t (text "MONEY"))) [
    | inl m ↦ rw (h.0, h.1, m) refl
    | inr m ↦ elim (Option-cases (R.number raw)) [
      | inl e ↦ rw (h.0, h.1, m, e) refl
      | inr (n, e) ↦ rw (h.0, h.1, m, e) refl
    ]
  ]
  parse_value-meant_of boolean raw t h = rw (h.0, h.1) refl
  parse_value-meant_of c raw t h = rw (h.0, h.1) refl

  parse_value-to_lower : (raw t : Text) → parse_value R raw (to_lower t) ≡ parse_value R raw t
  unfolding parse_value
  parse_value-to_lower raw t = rw (to_upper-to_lower t) refl

  abbrev pub IsMeant : Text → PostgresTypeItem → Type 0
  IsMeant raw item =
      let value =
        if text_eq raw [] || text_eq raw (text "NULL")
        then null
        else meant item.category item.value raw in
      (parse_value R raw item.value ≡ value) × (parse_value R raw (to_lower item.value) ≡ value)

  fitting :
      (raw : Text) (items : List PostgresTypeItem)
      → All (λ item. Fits item.category item.value) items
      → All (IsMeant raw) items
  fitting raw [] h = tt
  fitting raw (t ∷ ts) h =
      let here = parse_value-meant_of t.category raw t.value h.0 in
      ((here, parse_value-to_lower raw t.value ∙ here), fitting raw ts h.1)

  fitting_items : All (λ item. Fits item.category item.value) postgresql_types
  unfolding postgresql_types is_numeric text_includes starts_with_text text_eq text to_upper
  fitting_items = ground arith

  -- What is typed for a column of an offered type, in upper or in lower case, becomes null if it is
  -- empty or the word NULL. Otherwise it becomes, for a numeric type but MONEY, the number that it is
  -- read as, and the text itself if it is read as none; for a Boolean, whether it is true or 1; and the
  -- text itself for MONEY and any other type.
  pub parse_value-IsMeant : (raw : Text) → All (IsMeant raw) postgresql_types
  parse_value-IsMeant raw = fitting raw postgresql_types fitting_items
