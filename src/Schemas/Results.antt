-- ===== src/Schemas/Results.antt =====
-- What the answers with rows stand for, and that the schemas read them as that.
use mathlib.Core.Path.{subst}
use pgmanager.Common.{◌≡◌, refl, sym, ap, ◌∙◌, some_injective, Option, some, List, Text, text}
use pgmanager.Schemas.{Value, DataResult, QueryResult, ColumnInfo}
use pgmanager.Schemas.Zod.{
  Json, get, Reads, IsText, IsNumber, IsBool, IsArray, IsOptional, IsNullable, IsObject, Zod,
}
use pgmanager.Schemas.Answers.{rows, data_result_schema, query_result_schema, column_info_schema}
use pgmanager.Schemas.Meaning.{first_field, texts_read}

abbrev pub IsAny : Option Json → Option Json → Type 0
IsAny v w = v ≡ w

abbrev pub IsColumnInfo : (Text → Option Json) → ColumnInfo → Type 0
IsColumnInfo get c =
    IsText (get (text "name")) c.name
    × IsText (get (text "type")) c.type
    × IsBool (get (text "nullable")) c.nullable
    × IsNullable IsText (get (text "default")) c.default
    × IsBool (get (text "isPrimaryKey")) c.is_primary_key

module _ {N : Type 0} (view : Option Json → Value N) where
  -- Arrays of any values, which are viewed as those of rows.
  abbrev pub IsRows : Option Json → List (List (Value N)) → Type 0
  IsRows v rs =
      (cells : List (List (Option Json))) × IsArray (IsArray IsAny) v cells × (rs ≡ rows view cells)

  abbrev pub IsDataResult : (Text → Option Json) → DataResult N → Type 0
  IsDataResult get d =
      IsArray IsText (get (text "columns")) d.columns
      × IsRows (get (text "rows")) d.rows
      × IsNumber (get (text "total")) d.total

  abbrev pub IsQueryResult : (Text → Option Json) → QueryResult N → Type 0
  IsQueryResult get q =
      IsArray IsText (get (text "columns")) q.columns
      × IsRows (get (text "rows")) q.rows
      × IsNumber (get (text "rowCount")) q.row_count
      × IsNumber (get (text "duration")) q.duration
      × IsOptional IsText (get (text "error")) q.error

module _ (z : Zod) where
  pub any_read : Reads z.any IsAny
  any_read v w = (λ h. some_injective (sym (z.any_reads v) ∙ h), λ h. z.any_reads v ∙ ap some h)

  cells_read : Reads (z.array (z.array z.any)) (IsArray (IsArray IsAny))
  cells_read = z.array_reads _ _ (z.array_reads _ _ any_read)

  default_read : Reads (z.nullable z.string) (IsNullable IsText)
  default_read = z.nullable_reads z.string IsText z.string_reads

  error_read : Reads (z.optional z.string) (IsOptional IsText)
  error_read = z.optional_reads z.string IsText z.string_reads

  pub column_info_schema-Reads : Reads (column_info_schema z) (IsObject IsColumnInfo)
  unfolding column_info_schema
  column_info_schema-Reads = z.object_reads _ IsColumnInfo (λ get c. (
    λ h.
        let (n, p, h1) = first_field _ (z.string_reads _) h in
        let (ty, q, h2) = first_field _ (z.string_reads _) h1 in
        let (nu, r, h3) = first_field _ (z.boolean_reads _) h2 in
        let (d, s, h4) = first_field _ (default_read _) h3 in
        let (k, t, h5) = first_field _ (z.boolean_reads _) h4 in
        subst (IsColumnInfo get) (some_injective h5) (p, q, r, s, t),
    λ h.
        rw
          (
            (z.string_reads _ _).1 h.0,
            (z.string_reads _ _).1 h.1,
            (z.boolean_reads _ _).1 h.2,
            (default_read _ _).1 h.3,
            (z.boolean_reads _ _).1 h.4,
          )
          refl,
  ))

  module _ {N : Type 0} (view : Option Json → Value N) where
    pub data_result_schema-Reads : Reads (data_result_schema z view) (IsObject (IsDataResult view))
    unfolding data_result_schema
    data_result_schema-Reads = z.object_reads _ (IsDataResult view) (λ get d. (
      λ h.
          let (cs, p, h1) = first_field _ (texts_read z _) h in
          let (rs, q, h2) = first_field _ (cells_read _) h1 in
          let (n, r, h3) = first_field _ (z.number_reads _) h2 in
          subst (IsDataResult view get) (some_injective h3) (p, (rs, q, refl), r),
      λ h.
          rw ((texts_read z _ _).1 h.0, (cells_read _ _).1 h.1.1, (z.number_reads _ _).1 h.2, h.1.2)
            refl,
    ))

    pub query_result_schema-Reads :
        Reads (query_result_schema z view) (IsObject (IsQueryResult view))
    unfolding query_result_schema
    query_result_schema-Reads = z.object_reads _ (IsQueryResult view) (λ get q. (
      λ h.
          let (cs, p, h1) = first_field _ (texts_read z _) h in
          let (rs, r, h2) = first_field _ (cells_read _) h1 in
          let (n, s, h3) = first_field _ (z.number_reads _) h2 in
          let (d, t, h4) = first_field _ (z.number_reads _) h3 in
          let (e, u, h5) = first_field _ (error_read _) h4 in
          subst (IsQueryResult view get) (some_injective h5) (p, (rs, r, refl), s, t, u),
      λ h.
          rw
            (
              (texts_read z _ _).1 h.0,
              (cells_read _ _).1 h.1.1,
              (z.number_reads _ _).1 h.2,
              (z.number_reads _ _).1 h.3,
              (error_read _ _).1 h.4,
              h.1.2,
            )
            refl,
    ))
