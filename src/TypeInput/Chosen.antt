-- ===== src/TypeInput/Chosen.antt =====
-- Which control a type gets, by the case that it is written in.
use pgmanager.Common.{
  ◌≡◌, refl, Bool, true, false, leb, ◌&&◌, Text, text, text_eq, to_lower, or_else, [], ◌∷◌,
  if◌then◌else◌, arith,
}
use pgmanager.Schemas.{ColumnInfo}
use pgmanager.PgTypes.{Category, numeric, boolean, date_time, json, get_type_category}
use pgmanager.TypeInput.{
  Control, switch, datetime_input, number_input, text_area, text_input, placeholder, is_float,
  by_category, control,
}

begins_upper : Text → Bool
begins_upper [] = false
begins_upper (c ∷ s) = leb 65 c && leb c 90

-- A text in lower case is none that begins with a capital letter.
lower_differs : (t s : Text) → to_lower t ≡ t → begins_upper s ≡ true → text_eq t s ≡ false
unfolding to_lower text_eq begins_upper
lower_differs t [] h b = ground arith
lower_differs [] (c ∷ s) h b = refl
lower_differs (d ∷ t) (c ∷ s) h b = ground arith

-- The control of a category for a type that is none of those that the code names.
abbrev pub plain_control : Category → ColumnInfo → Text → Control
plain_control boolean column value =
    switch (text_eq value (text "true"))
      (if text_eq value (text "true") then text "TRUE" else text "FALSE")
plain_control date_time column value = datetime_input value
plain_control numeric column value = number_input false value (or_else column.default [])
plain_control json column value = text_area value (or_else column.default [])
plain_control _ column value = text_input value (or_else column.default [])

-- A column whose type is written in lower case, as the server lists it, gets the control of its
-- category alone: a date or a time of day is edited as a date with a time, and the input for a real
-- number steps by 1, since the code compares with names in upper case.
pub control-lower :
    (column : ColumnInfo) (value : Text)
    → to_lower column.type ≡ column.type
    → control column value ≡ plain_control (get_type_category column.type) column value
unfolding control by_category is_float placeholder text begins_upper
control-lower column value h = by_cases (get_type_category column.type)
  where
    differs : (s : Text) → begins_upper s ≡ true → text_eq column.type s ≡ false
    differs s b = lower_differs column.type s h b

    by_cases : (c : Category) → by_category c column value ≡ plain_control c column value
    by_cases date_time = rw (differs (text "TIME") refl, differs (text "DATE") refl) refl
    by_cases numeric =
        rw
          (
            is_float,
            differs (text "REAL") refl,
            differs (text "DOUBLE PRECISION") refl,
            differs (text "NUMERIC") refl,
          )
          refl
    by_cases boolean = refl
    by_cases json = refl
    by_cases c = refl
