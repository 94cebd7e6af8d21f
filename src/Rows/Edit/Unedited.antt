-- ===== src/Rows/Edit/Unedited.antt =====
-- backend/ui/src/components/dialogs/EditRowDialog.tsx: what a save sends when no field was changed.
use pgmanager.Common.{
  ◌≡◌, ◌≢◌, ◌⊎◌, refl, sym, ap, ◌∙◌, Bool, true, false, ◌||◌, some, List, [], ◌∷◌, map, Text, text,
  text_eq, text_eq_cases, if◌then◌else◌, length, All, inl, inr, arith, to_upper,
}
use pgmanager.Schemas.{Value, null, bool, num, str, compound, ColumnInfo}
use pgmanager.Dict.{lookup, insert_all, Avoids, DistinctKeys, lookup-insert_all}
use pgmanager.Rows.{Numbers, IsReadBack, is_numeric, parse_value, show_value}
use pgmanager.Rows.Where.{rest, edit_where}
use pgmanager.Rows.Where.Exact.{AreNames}
use pgmanager.Rows.Edit.{field_text, field_texts, fill, saved, update_row, submit}

-- The type is BOOLEAN, in any case.
abbrev pub is_boolean : Text → Bool
is_boolean type = text_eq (to_upper type) (text "BOOLEAN")

module _ (R : Numbers) where
  -- The value comes back from its text in a column of that type: a number in a numeric column, a
  -- truth value in a BOOLEAN column, and in another column a string other than "" and "NULL".
  abbrev pub Stable : Text → Value R.N → Type 0
  Stable type null = Unit
  Stable type (bool b) = (is_numeric (to_upper type) ≡ false) × (is_boolean type ≡ true)
  Stable type (num n) = (is_numeric (to_upper type) ≡ true) × IsReadBack R n
  Stable type (str s) =
      (s ≢ [])
      × (s ≢ text "NULL")
      × (is_numeric (to_upper type) ≡ false)
      × (is_boolean type ≡ false)
  Stable type (compound j t) = ⊥

  text_ne : (s t : Text) → s ≢ t → text_eq s t ≡ false
  text_ne s t h = elim (text_eq_cases s t) [ inl (e, _) ↦ absurd (h e) | inr (_, e) ↦ e ]

  -- The text of a field is sent as that value.
  abbrev sent : Text → Text → Value R.N
  sent raw type = if text_eq raw [] then null else parse_value R raw type

  module _ (raw type : Text) (e : text_eq raw [] ≡ false)
      (n : text_eq raw (text "NULL") ≡ false) where
    sent_number :
        {x : R.N}
        → is_numeric (to_upper type) ≡ true
        → R.number raw ≡ some x
        → sent raw type ≡ num x
    unfolding parse_value
    sent_number h k = rw (e, n, h, k)

    sent_bool :
        is_numeric (to_upper type) ≡ false
        → is_boolean type ≡ true
        → sent raw type ≡ bool (text_eq raw (text "true") || text_eq raw (text "1"))
    unfolding parse_value
    sent_bool h k = rw (e, n, h, k)

    sent_str :
        is_numeric (to_upper type) ≡ false → is_boolean type ≡ false → sent raw type ≡ str raw
    unfolding parse_value
    sent_str h k = rw (e, n, h, k)

  sent_null : (type : Text) → sent [] type ≡ null
  unfolding text_eq
  sent_null type = refl

  sent_word_null : (type : Text) → sent (text "NULL") type ≡ null
  unfolding text text_eq parse_value
  sent_word_null type = refl

  true_texts :
      (text_eq (text "true") [] ≡ false)
      × (text_eq (text "true") (text "NULL") ≡ false)
      × (text_eq (text "false") [] ≡ false)
      × (text_eq (text "false") (text "NULL") ≡ false)
      × ((text_eq (text "true") (text "true") || text_eq (text "true") (text "1")) ≡ true)
      × ((text_eq (text "false") (text "true") || text_eq (text "false") (text "1")) ≡ false)
  unfolding text text_eq
  true_texts = (refl, refl, refl, refl, refl, refl)

  sent-field_text :
      (type : Text) (v : Value R.N) → Stable type v → sent (field_text R (some v)) type ≡ v
  unfolding field_text show_value
  sent-field_text type null h = sent_null type
  sent-field_text type (bool true) h =
      sent_bool (text "true") type true_texts.0 true_texts.1 h.0 h.1 ∙ ap bool true_texts.4
  sent-field_text type (bool false) h =
      sent_bool (text "false") type true_texts.2 true_texts.3 h.0 h.1 ∙ ap bool true_texts.5
  sent-field_text type (num n) h =
      sent_number _ type (text_ne _ _ h.1.not_empty) (text_ne _ _ h.1.not_null) h.0 h.1.read_back
  sent-field_text type (str s) h = sent_str s type (text_ne _ _ h.0) (text_ne _ _ h.1) h.2 h.3
  sent-field_text type (compound j t) h = absurd h

  -- The values of a row, with the names of their columns.
  pub named : List ColumnInfo → List (Value R.N) → List (Text × Value R.N)
  named (col ∷ columns) (v ∷ row) = (col.name, v) ∷ named columns row
  named _ _ = []

  abbrev pub AllStable : List ColumnInfo → List (Value R.N) → Type 0
  AllStable (col ∷ columns) (v ∷ row) = Stable col.type v × AllStable columns row
  AllStable _ _ = Unit

  abbrev names : List ColumnInfo → List Text
  names columns = map (λ col. col.name) columns

  saved_fields :
      (values : List (Text × Text)) (columns : List ColumnInfo) (row : List (Value R.N))
      → length row ≡ length columns
      → AllStable columns row
      → All (λ p. lookup p.0 values ≡ some p.1) (field_texts R columns row)
      → map (λ col. (col.name, saved R values col)) columns ≡ named columns row
  unfolding named field_texts saved
  saved_fields values [] [] l h k = refl
  saved_fields values [] (v ∷ row) l h k = absurd (omega arith)
  saved_fields values (col ∷ columns) [] l h k = absurd (omega arith)
  saved_fields values (col ∷ columns) (v ∷ row) l h k =
      rw
        (k.0, sent-field_text col.type v h.0, saved_fields values columns row (omega arith) h.1 k.1)

  Avoids-field_texts :
      (name : Text) (columns : List ColumnInfo) (row : List (Value R.N))
      → All (λ d. d ≢ name) (names columns)
      → Avoids name (field_texts R columns row)
  unfolding field_texts
  Avoids-field_texts name [] row h = tt
  Avoids-field_texts name (col ∷ columns) row h =
      (h.0, Avoids-field_texts name columns (rest row) h.1)

  DistinctKeys-field_texts :
      (columns : List ColumnInfo) (row : List (Value R.N))
      → AreNames (names columns)
      → DistinctKeys (field_texts R columns row)
  unfolding field_texts
  DistinctKeys-field_texts [] row h = tt
  DistinctKeys-field_texts (col ∷ columns) row h = (
    Avoids-field_texts col.name columns (rest row) h.1,
    DistinctKeys-field_texts columns (rest row) h.2,
  )

  -- If a row with a value for each column of a table, whose columns have distinct names that are
  -- not empty, was opened and no field was changed, a save writes to each column the value that
  -- the row has there, under the conditions of that row, provided that each value comes back
  -- from its text in a column of its type.
  pub submit-fill :
      (columns : List ColumnInfo) (row : List (Value R.N)) (old : List (Text × Text))
      → AreNames (names columns)
      → length row ≡ length columns
      → AllStable columns row
      → submit R (some row) (some columns) (fill R true (some row) (some columns) old)
        ≡ update_row (insert_all [] (named columns row)) (edit_where row columns)
  unfolding submit fill
  submit-fill columns row old n l h =
      let values = insert_all [] (field_texts R columns row) in
      let kept =
        lookup-insert_all [] (field_texts R columns row) (DistinctKeys-field_texts columns row n) in
      ap (λ ps. update_row (insert_all [] ps) (edit_where row columns))
        (saved_fields values columns row l h kept)

  -- An empty string, the string NULL, an array or an object.
  abbrev pub IsLost : Value R.N → Type 0
  IsLost (str s) = (s ≡ []) ⊎ (s ≡ text "NULL")
  IsLost (compound j t) = Unit
  IsLost _ = ⊥

  sent-ne-compound : (raw type j t : Text) → sent raw type ≢ compound j t
  unfolding parse_value
  sent-ne-compound raw type j t = ground arith

  -- If the field of a column holds the text of the value that it was opened with, and that value
  -- is an empty string, the string "NULL", an array or an object, then what is sent for the
  -- field is another value.
  pub saved-ne_of_lost :
      (values : List (Text × Text)) (col : ColumnInfo) (v : Value R.N)
      → lookup col.name values ≡ some (field_text R (some v))
      → IsLost v
      → saved R values col ≢ v
  unfolding saved field_text show_value
  saved-ne_of_lost values col (str s) k (inl e) =
      rw (k, e)
        (λ p. let q : ◌≡◌ {A = Value R.N} null (str []) = sym (sent_null col.type) ∙ p in cc)
  saved-ne_of_lost values col (str s) k (inr e) =
      rw (k, e)
        (λ p.
          let q : ◌≡◌ {A = Value R.N} null (str (text "NULL")) =
            sym (sent_word_null col.type) ∙ p in
          cc)
  saved-ne_of_lost values col (compound j t) k h = rw k (sent-ne-compound t col.type j t)
  saved-ne_of_lost values col null k h = absurd h
  saved-ne_of_lost values col (bool b) k h = absurd h
  saved-ne_of_lost values col (num n) k h = absurd h
