-- ===== src/Schemas/Audit.antt =====
-- What the answers with the entries of the audit log stand for, and that the schemas read them as
-- that.
use mathlib.Core.Path.{subst}
use pgmanager.Common.{◌≡◌, ◌↔◌, refl, sym, ap, ◌∙◌, some_injective, Option, none, some, Text, text}
use pgmanager.Schemas.{AuditLogEntry, AuditLogResponse}
use pgmanager.Schemas.Zod.{
  Json, null, Reads, IsText, IsNumber, IsArray, IsOptional, IsNullable, IsObject, Zod,
}
use pgmanager.Schemas.Answers.{given, audit_log_entry_schema, audit_log_response_schema}
use pgmanager.Schemas.Meaning.{first_field}
use pgmanager.Schemas.Results.{IsAny, any_read}

module _ {A : Type 0} (R : Option Json → A → Type 0) where
  -- What is absent or null is nothing.
  abbrev pub IsNullish : Option Json → Option A → Type 0
  IsNullish none o = o ≡ none
  IsNullish (some null) o = o ≡ none
  IsNullish (some j) o = (a : A) × (o ≡ some a) × R (some j) a

  given-IsNullish :
      (v : Option Json) (o : Option A)
      → ((x : Option (Option A)) × IsOptional (IsNullable R) v x × (o ≡ given x)) ↔ IsNullish v o
  given-IsNullish none o = (λ (x, h, e). e ∙ ap given h, λ h. (none, refl, h))
  given-IsNullish (some null) o =
      (λ (x, (y, h, i), e). e ∙ ap given (h ∙ ap some i), λ h. (some none, (none, refl, refl), h))
  given-IsNullish (some j) o = (
    λ (x, (y, h, (a, i, k)), e). (a, e ∙ ap given (h ∙ ap some i), k),
    λ (a, h, i). (some (some a), (some a, refl, (a, refl, i)), h),
  )

-- Any value but `null`.
abbrev pub IsDetail : Option Json → Option Json → Type 0
IsDetail none o = o ≡ none
IsDetail (some null) o = o ≡ none
IsDetail (some j) o = o ≡ some j

given-IsDetail :
    (v o : Option Json)
    → ((x : Option (Option Json)) × IsNullish IsAny v x × (o ≡ given x)) ↔ IsDetail v o
given-IsDetail none o = (λ (x, h, e). e ∙ ap given h, λ h. (none, refl, h))
given-IsDetail (some null) o = (λ (x, h, e). e ∙ ap given h, λ h. (none, refl, h))
given-IsDetail (some j) o =
    (λ (x, (w, h, i), e). e ∙ (ap given h ∙ sym i), λ h. (some (some j), (some j, refl, refl), h))

abbrev pub IsAuditLogEntry : (Text → Option Json) → AuditLogEntry Json → Type 0
IsAuditLogEntry get e =
    IsNumber (get (text "id")) e.id
    × IsText (get (text "username")) e.username
    × IsText (get (text "action")) e.action
    × IsText (get (text "database")) e.database
    × IsNullish IsText (get (text "tableName")) e.table_name
    × IsDetail (get (text "detail")) e.detail
    × IsNullish IsText (get (text "ipAddress")) e.ip_address
    × IsText (get (text "createdAt")) e.created_at

abbrev pub IsAuditLogResponse : (Text → Option Json) → AuditLogResponse Json → Type 0
IsAuditLogResponse get a =
    IsArray (IsObject IsAuditLogEntry) (get (text "entries")) a.entries
    × IsNumber (get (text "total")) a.total

module _ (z : Zod) where
  nullable-IsText : Reads (z.optional (z.nullable z.string)) (IsOptional (IsNullable IsText))
  nullable-IsText = z.optional_reads _ _ (z.nullable_reads _ _ z.string_reads)

  nullable-IsAny : Reads (z.optional (z.nullable z.any)) (IsOptional (IsNullable IsAny))
  nullable-IsAny = z.optional_reads _ _ (z.nullable_reads _ _ (any_read z))

  audit_log_entry_schema-Reads : Reads (audit_log_entry_schema z) (IsObject IsAuditLogEntry)
  unfolding audit_log_entry_schema
  audit_log_entry_schema-Reads = z.object_reads _ IsAuditLogEntry (λ get e. (
    λ h.
        let (i, p, h1) = first_field _ (z.number_reads _) h in
        let (n, q, h2) = first_field _ (z.string_reads _) h1 in
        let (a, r, h3) = first_field _ (z.string_reads _) h2 in
        let (d, s, h4) = first_field _ (z.string_reads _) h3 in
        let (tn, t, h5) = first_field _ (nullable-IsText _) h4 in
        let (de, u, h6) = first_field _ (nullable-IsAny _) h5 in
        let (ip, v, h7) = first_field _ (nullable-IsText _) h6 in
        let (c, w, h8) = first_field _ (z.string_reads _) h7 in
        subst (IsAuditLogEntry get) (some_injective h8) (
          p,
          q,
          r,
          s,
          (given-IsNullish IsText _ _).0 (tn, t, refl),
          (given-IsDetail _ _).0 (given de, (given-IsNullish IsAny _ _).0 (de, u, refl), refl),
          (given-IsNullish IsText _ _).0 (ip, v, refl),
          w,
        ),
    λ h.
        let (tn, t, i) = (given-IsNullish IsText _ _).1 h.4 in
        let (de1, u1, j1) = (given-IsDetail _ _).1 h.5 in
        let (de, u, j) = (given-IsNullish IsAny _ _).1 u1 in
        let (ip, v, k) = (given-IsNullish IsText _ _).1 h.6 in
        rw
          (
            (z.number_reads _ _).1 h.0,
            (z.string_reads _ _).1 h.1,
            (z.string_reads _ _).1 h.2,
            (z.string_reads _ _).1 h.3,
            (nullable-IsText _ _).1 t,
            (nullable-IsAny _ _).1 u,
            (nullable-IsText _ _).1 v,
            (z.string_reads _ _).1 h.7,
            i,
            j1,
            j,
            k,
          )
          refl,
  ))

  entries_read : Reads (z.array (audit_log_entry_schema z)) (IsArray (IsObject IsAuditLogEntry))
  entries_read = z.array_reads _ _ audit_log_entry_schema-Reads

  pub audit_log_response_schema-Reads :
      Reads (audit_log_response_schema z) (IsObject IsAuditLogResponse)
  unfolding audit_log_response_schema
  audit_log_response_schema-Reads = z.object_reads _ IsAuditLogResponse (λ get a. (
    λ h.
        let (es, p, h1) = first_field _ (entries_read _) h in
        let (n, q, h2) = first_field _ (z.number_reads _) h1 in
        subst (IsAuditLogResponse get) (some_injective h2) (p, q),
    λ h. rw ((entries_read _ _).1 h.0, (z.number_reads _ _).1 h.1) refl,
  ))
