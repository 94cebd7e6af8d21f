-- ===== src/Rows/Insert/Required.antt =====
-- backend/ui/src/components/dialogs/InsertRowDialog.tsx: when a row is sent, and what it holds.
use pgmanager.Common.{
  ◌≡◌, refl, Bool, true, false, not, ◌&&◌, some, List, [], ◌∷◌, ◌++◌, map, Text, text, is_empty,
  filter_by, All, Bool-cases, inl, inr, arith,
}
use pgmanager.Schemas.{Value, ColumnInfo}
use pgmanager.Dict.{insert_all}
use pgmanager.Rows.{Numbers, parse_value}
use pgmanager.Rows.Insert.{is_serial, raw, thrown, insert_row, rounds, finish, submit}

-- The field is empty though the dialog demands it: the column is not nullable, and its type does
-- not contain the word SERIAL.
abbrev pub is_missing : List (Text × Text) → ColumnInfo → Bool
is_missing values col = is_empty (raw values col) && (not col.nullable && not (is_serial col))

abbrev pub NoneMissing : List (Text × Text) → List ColumnInfo → Type 0
NoneMissing values columns = All (λ col. is_missing values col ≡ false) columns

module _ (R : Numbers) (values : List (Text × Text)) where
  -- The fields that were filled in, with their parsed values.
  abbrev pub filled : List ColumnInfo → List (Text × Value R.N)
  filled columns =
      map (λ col. (col.name, parse_value R (raw values col) col.type))
        (filter_by (λ col. not (is_empty (raw values col))) columns)

  rounds-insert_row :
      (columns : List ColumnInfo)
      → NoneMissing values columns
      → rounds R values columns ≡ insert_row (filled columns)
  unfolding rounds
  rounds-insert_row [] h = refl
  rounds-insert_row (col ∷ columns) h = elim (Bool-cases (is_empty (raw values col))) [
    | inl e ↦ rw (e, rounds-insert_row columns h.1) (rw (rw e at h.0))
    | inr e ↦ rw (e, rounds-insert_row columns h.1)
  ]

  rounds-thrown :
      (before after : List ColumnInfo) (col : ColumnInfo)
      → NoneMissing values before
      → is_missing values col ≡ true
      → rounds R values (before ++ col ∷ after) ≡ thrown (col.name ++ text " is required")
  unfolding rounds
  rounds-thrown [] after col h k = ground arith
  rounds-thrown (c ∷ before) after col h k =
      let ih = rounds-thrown before after col h.1 k in
      elim (Bool-cases (is_empty (raw values c))) [
        | inl e ↦ rw (e, ih) (rw (rw e at h.0))
        | inr e ↦ rw (e, ih)
      ]

  -- If no demanded field is empty, exactly the fields that were filled in are sent, each parsed by
  -- the type of its column; the others are left to the database.
  pub submit-insert_row :
      (columns : List ColumnInfo)
      → NoneMissing values columns
      → submit R (some columns) values ≡ insert_row (insert_all [] (filled columns))
  unfolding submit finish
  submit-insert_row columns h = rw (rounds-insert_row columns h)

  -- If a demanded field is empty, nothing is sent, and the error names the first such column: one
  -- that is not nullable and whose type does not contain SERIAL, whatever default it has.
  pub submit-thrown :
      (before after : List ColumnInfo) (col : ColumnInfo)
      → NoneMissing values before
      → is_missing values col ≡ true
      → submit R (some (before ++ col ∷ after)) values ≡ thrown (col.name ++ text " is required")
  unfolding submit finish
  submit-thrown before after col h k = rw (rounds-thrown before after col h k)
