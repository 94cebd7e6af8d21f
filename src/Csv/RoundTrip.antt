-- ===== src/Csv/RoundTrip.antt =====
-- What a reader of comma-separated values makes of an exported file.
use pgmanager.Common.{
  ℕ, ◌≡◌, ◌≢◌, sym, ◌⊎◌, refl, ap, ◌∙◌, false, some, List, [], ◌∷◌, ◌++◌, map, Text, text,
  text_includes, starts_with_text, All, Bool-cases, inl, inr, arith,
}
use mathlib.Core.List.{append-nil, append_assoc}
use pgmanager.Schemas.{Value, null, QueryResult}
use pgmanager.Sql.{double_quotes}
use pgmanager.Rows.{Numbers, show_value}
use pgmanager.Csv.{needs_quotes, escape_cell, join, csv_cell, csv_row, export_csv}
use pgmanager.Csv.Reader.{
  fresh, bare, quoted, closing, Rest, done, next_field, next_record, read, read_csv,
}

-- A unit that means nothing to the reader outside quotes.
abbrev pub IsPlain : ℕ → Type 0
IsPlain c = (c ≢ b',') × (c ≢ b'"') × (c ≢ 10)

-- The end of a field: the end of the text, a comma or a line feed.
abbrev IsEnd : Text → Type 0
IsEnd [] = Unit
IsEnd (c ∷ s) = (c ≡ b',') ⊎ (c ≡ 10)

abbrev prefix : Text → Rest → Rest
prefix s r = record r { field = s ++ r.field }

read_end : (t : Text) → IsEnd t → (read fresh t ≡ read bare t) × (read closing t ≡ read bare t)
unfolding read
read_end [] h = (refl, refl)
read_end (c ∷ t) h = (ground arith, ground arith)

read_bare : (s t : Text) → All IsPlain s → read bare (s ++ t) ≡ prefix s (read bare t)
unfolding read
read_bare [] t h = refl
read_bare (c ∷ s) t h = ground (arith, read_bare s t h.1)

read_quoted :
    (s t : Text) → IsEnd t → read quoted (double_quotes s ++ b'"' ∷ t) ≡ prefix s (read bare t)
unfolding read double_quotes
read_quoted [] t h = (read_end t h).1
read_quoted (c ∷ s) t h = ground (arith, read_quoted s t h)

includes_unit : (s : Text) (c : ℕ) → text_includes s (c ∷ []) ≡ false → All (λ d. d ≢ c) s
unfolding text_includes
includes_unit [] c h = tt
includes_unit (d ∷ s) c h = (ground arith, includes_unit s c (ground arith))

All-IsPlain : (s : Text) → needs_quotes s ≡ false → All IsPlain s
unfolding needs_quotes
All-IsPlain s h =
    zip s (includes_unit s b',' (ground arith)) (includes_unit s b'"' (ground arith))
      (includes_unit s 10 (ground arith))
  where
    zip :
        (s : Text)
        → All (λ d. d ≢ b',') s
        → All (λ d. d ≢ b'"') s
        → All (λ d. d ≢ 10) s
        → All IsPlain s
    zip [] a b c = tt
    zip (d ∷ s) a b c = ((a.0, b.0, c.0), zip s a.1 b.1 c.1)

fresh_bare : (c : ℕ) (s : Text) → c ≢ b'"' → read fresh (c ∷ s) ≡ read bare (c ∷ s)
unfolding read
fresh_bare c s h = ground arith

bare_comma : (s : Text) → read bare (b',' ∷ s) ≡ next_field (read fresh s)
unfolding read
bare_comma s = refl

bare_line_feed : (s : Text) → read bare (10 ∷ s) ≡ next_record (read fresh s)
unfolding read
bare_line_feed s = refl

bare_nil : read bare [] ≡ done
unfolding read
bare_nil = refl

read_plain : (s t : Text) → All IsPlain s → IsEnd t → read fresh (s ++ t) ≡ prefix s (read bare t)
read_plain [] t h e = (read_end t e).0
read_plain (c ∷ s) t h e = fresh_bare c (s ++ t) h.0.1 ∙ read_bare (c ∷ s) t h

read-escape_cell : (s t : Text) → IsEnd t → read fresh (escape_cell s ++ t) ≡ prefix s (read bare t)
unfolding escape_cell
read-escape_cell s t h = elim (Bool-cases (needs_quotes s)) [
  | inl e ↦ rw e (rw append_assoc (unfold read in read_quoted s t h))
  | inr e ↦ rw e (read_plain s t (All-IsPlain s e) h)
]

-- The fields of a record that are written with commas between them, and what is read behind them.
abbrev fields_then : Text → List Text → Rest → Rest
fields_then s more r = record { field = s; others = more ++ r.others; records = r.records }

-- The text goes on with a new record, or ends.
abbrev IsClose : Text → Type 0
IsClose [] = Unit
IsClose (c ∷ t) = c ≡ 10

read_close : (t : Text) → IsClose t → (read bare t).field ≡ []
unfolding read
read_close [] h = refl
read_close (c ∷ t) h = ground arith

IsEnd-of : (t : Text) → IsClose t → IsEnd t
IsEnd-of [] h = tt
IsEnd-of (c ∷ t) h = inr h

read-join :
    (s : Text) (cells : List Text) (t : Text)
    → IsClose t
    → read fresh (join (b',' ∷ []) (map escape_cell (s ∷ cells)) ++ t)
      ≡ fields_then s cells (read bare t)
unfolding join
read-join s [] t h = read-escape_cell s t (IsEnd-of t h) ∙ rw (read_close t h) (rw (append-nil s))
read-join s (s' ∷ cells) t h =
    let line = join (b',' ∷ []) (map escape_cell (s' ∷ cells)) in
    rw append_assoc (
      read-escape_cell s (b',' ∷ line ++ t) (inl refl)
      ∙ rw (bare_comma (line ++ t)) (rw (read-join s' cells t h) (rw (append-nil s))))

-- A record as a line of the file.
abbrev line : List Text → Text
line cells = join (b',' ∷ []) (map escape_cell cells)

abbrev IsNonEmpty {ℓ} : {A : Type ℓ} → List A → Type 0
IsNonEmpty [] = ⊥
IsNonEmpty (x ∷ xs) = Unit

abbrev record_of : Text → List Text → List (List Text) → Rest
record_of s cells records = record { field = s; others = cells; records = records }

read-lines :
    (s : Text) (cells : List Text) (records : List (List Text))
    → All IsNonEmpty records
    → read fresh (join (10 ∷ []) (map line ((s ∷ cells) ∷ records))) ≡ record_of s cells records
unfolding join
read-lines s cells [] h =
    ap (read fresh) (sym (append-nil (line (s ∷ cells))))
    ∙ (read-join s cells [] tt ∙ rw bare_nil (rw (append-nil cells)))
read-lines s cells ([] ∷ records) h = absurd (h.0)
read-lines s cells ((s' ∷ cells') ∷ records) h =
    let file = join (10 ∷ []) (map line ((s' ∷ cells') ∷ records)) in
    read-join s cells (10 ∷ file) refl
    ∙ rw (bare_line_feed file) (rw (read-lines s' cells' records h.1) (rw (append-nil cells)))

read_csv-line :
    (c : Text) (cs : List Text) (lines : List Text) (records : List (List Text))
    → map escape_cell (c ∷ cs) ≡ c ∷ cs
    → lines ≡ map line records
    → All IsNonEmpty records
    → read_csv (join (10 ∷ []) (join (b',' ∷ []) (c ∷ cs) ∷ lines)) ≡ (c ∷ cs) ∷ records
unfolding read_csv
read_csv-line c cs lines records e l h =
    let file : join (10 ∷ []) (join (b',' ∷ []) (c ∷ cs) ∷ lines)
        ≡ join (10 ∷ []) (map line ((c ∷ cs) ∷ records)) =
      cc (e, l) in
    ap (λ s. let r = read fresh s in (r.field ∷ r.others) ∷ r.records) file
    ∙ ap (λ r. (r.field ∷ r.others) ∷ r.records) (read-lines c cs records h)

module _ (R : Numbers) where
  -- The text that stands for a value in the file.
  pub shown : Value R.N → Text
  shown null = text "NULL"
  shown v = show_value R v

  csv_cell-shown : (v : Value R.N) → csv_cell R v ≡ escape_cell (shown v)
  unfolding csv_cell shown escape_cell needs_quotes text text_includes starts_with_text
  csv_cell-shown null = refl
  csv_cell-shown _ = refl

  csv_row-shown : (row : List (Value R.N)) → csv_row R row ≡ line (map shown row)
  unfolding csv_row
  csv_row-shown row = ap (join (b',' ∷ [])) (cells row)
    where
      cells : (row : List (Value R.N)) → map (csv_cell R) row ≡ map escape_cell (map shown row)
      cells [] = refl
      cells (v ∷ row) = cc (csv_cell-shown v, cells row)

  csv_rows-shown :
      (rows : List (List (Value R.N))) → map (csv_row R) rows ≡ map line (map (map shown) rows)
  csv_rows-shown [] = refl
  csv_rows-shown (row ∷ rows) = cc (csv_row-shown row, csv_rows-shown rows)

  IsNonEmpty-shown :
      (rows : List (List (Value R.N))) → All IsNonEmpty rows → All IsNonEmpty (map (map shown) rows)
  IsNonEmpty-shown [] h = tt
  IsNonEmpty-shown ([] ∷ rows) h = absurd h.0
  IsNonEmpty-shown ((v ∷ row) ∷ rows) h = (tt, IsNonEmpty-shown rows h.1)

  header_line :
      (columns : List Text)
      → All (λ c. needs_quotes c ≡ false) columns
      → map escape_cell columns ≡ columns
  unfolding escape_cell
  header_line [] h = refl
  header_line (c ∷ cs) h = rw (h.0, header_line cs h.1)

  -- The exported file of a result with columns whose names hold no comma, quote or line feed, and
  -- with no empty row, is read back by a reader of comma-separated values as the header and then the
  -- rows, each cell as its text: commas, quotes and line feeds in cells do not break the file.
  pub read_csv-export_csv :
      (result : QueryResult R.N) (c : Text) (cs : List Text)
      → result.columns ≡ c ∷ cs
      → All (λ name. needs_quotes name ≡ false) (c ∷ cs)
      → All IsNonEmpty result.rows
      → (file : Text) × (export_csv R (some result) ≡ some file)
        × (read_csv file ≡ (c ∷ cs) ∷ map (map shown) result.rows)
  unfolding export_csv
  read_csv-export_csv result c cs e h k =
      let row_texts = map (map shown) result.rows in
      let lines = map (csv_row R) result.rows in
      (
        join (10 ∷ []) (join (b',' ∷ []) (c ∷ cs) ∷ lines),
        rw e refl,
        read_csv-line c cs lines row_texts (header_line (c ∷ cs) h) (csv_rows-shown result.rows)
            (IsNonEmpty-shown result.rows k),
      )
