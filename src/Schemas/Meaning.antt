-- ===== src/Schemas/Meaning.antt =====
-- What the server's answers stand for, and that the schemas read them as that.
use pgmanager.Common.{
  ◌≡◌, ◌↔◌, refl, ap, ◌∙◌, ◌>>=◌, bind_iff, some_injective, Option, some, Text, text, text_rules,
  text_eq,
}
use mathlib.Core.Path.{subst}
use pgmanager.Schemas.{
  Role, admin, dev, viewer, Access, read, write, ddl, full, User, AuthUserListItem,
}
use pgmanager.Dict.{lookup}
use pgmanager.Api.Auth.{role_text}
use pgmanager.Api.Users.{access_text}
use pgmanager.Schemas.Zod.{
  Json, str, Reads, IsText, IsNumber, IsArray, IsOptional, IsDefaulted, IsObject, Zod,
}
use pgmanager.Schemas.Answers.{
  accesses, roles, anywhere, user_schema, error_schema, auth_user_list_item_schema,
}

-- What stands for an access is its name.
abbrev pub IsAccess : Option Json → Access → Type 0
IsAccess v a = v ≡ some (str (access_text a))

abbrev pub IsRole : Option Json → Role → Type 0
IsRole v r = v ≡ some (str (role_text r))

access_name : (t : Text) (a : Access) → lookup t accesses ≡ some a → t ≡ access_text a
unfolding lookup
access_name t a h = grind (text_rules, h)

access_lookup : (a : Access) → lookup (access_text a) accesses ≡ some a
unfolding lookup text_eq text
access_lookup read = refl
access_lookup write = refl
access_lookup ddl = refl
access_lookup full = refl

role_name : (t : Text) (r : Role) → lookup t roles ≡ some r → t ≡ role_text r
unfolding lookup
role_name t r h = grind (text_rules, h)

role_lookup : (r : Role) → lookup (role_text r) roles ≡ some r
unfolding lookup text_eq text
role_lookup admin = refl
role_lookup dev = refl
role_lookup viewer = refl

module _ {A B : Type 0} where
  -- The first field of an object that is accepted, and the rest of its reading.
  pub first_field :
      {m : Option A} {f : A → Option B} {b : B} (P : A → Type 0)
      → ((a : A) → (m ≡ some a) ↔ P a)
      → (m >>= f) ≡ some b
      → ((a : A) × P a × (f a ≡ some b))
  first_field P r h = let (a, e, k) = (bind_iff _ _ _).0 h in (a, (r a).0 e, k)

abbrev pub IsUser : (Text → Option Json) → User → Type 0
IsUser get u =
    IsText (get (text "username")) u.username
    × IsArray IsText (get (text "databases")) u.databases
    × IsAccess (get (text "access")) u.access
    × IsDefaulted (IsArray IsText) anywhere (get (text "allowedIps")) u.allowed_ips
    × IsText (get (text "createdAt")) u.created_at

-- The databases may be missing, the server leaves them out where there are none.
abbrev pub IsAuthUserListItem : (Text → Option Json) → AuthUserListItem → Type 0
IsAuthUserListItem get u =
    IsNumber (get (text "id")) u.id
    × IsText (get (text "username")) u.username
    × IsRole (get (text "role")) u.role
    × IsOptional (IsArray IsText) (get (text "databases")) u.databases
    × IsText (get (text "createdAt")) u.created_at

abbrev pub IsError : (Text → Option Json) → Text → Type 0
IsError get e = IsText (get (text "error")) e

module _ (z : Zod) where
  pub texts_read : Reads (z.array z.string) (IsArray IsText)
  texts_read = z.array_reads z.string IsText z.string_reads

  enum-IsAccess : Reads (z.enum accesses) IsAccess
  enum-IsAccess v a = (
    λ h.
        let (t, e, i) = (z.enum_reads accesses v a).0 h in
        e ∙ ap (λ s. some (str s)) (access_name t a i),
    λ h. (z.enum_reads accesses v a).1 (access_text a, h, access_lookup a),
  )

  ips_read : Reads (z.default anywhere (z.array z.string)) (IsDefaulted (IsArray IsText) anywhere)
  ips_read = z.default_reads anywhere (z.array z.string) (IsArray IsText) texts_read

  enum-IsRole : Reads (z.enum roles) IsRole
  enum-IsRole v r = (
    λ h.
        let (t, e, i) = (z.enum_reads roles v r).0 h in
        e ∙ ap (λ s. some (str s)) (role_name t r i),
    λ h. (z.enum_reads roles v r).1 (role_text r, h, role_lookup r),
  )

  some_texts_read : Reads (z.optional (z.array z.string)) (IsOptional (IsArray IsText))
  some_texts_read = z.optional_reads (z.array z.string) (IsArray IsText) texts_read

  pub error_schema-Reads : Reads (error_schema z) (IsObject IsError)
  unfolding error_schema
  error_schema-Reads = z.object_reads _ IsError (λ get e. z.string_reads (get (text "error")) e)

  pub user_schema-Reads : Reads (user_schema z) (IsObject IsUser)
  unfolding user_schema
  user_schema-Reads = z.object_reads _ IsUser (λ get u. (
    λ h.
        let (n, p, h1) = first_field _ (z.string_reads _) h in
        let (ds, q, h2) = first_field _ (texts_read _) h1 in
        let (a, r, h3) = first_field _ (enum-IsAccess _) h2 in
        let (ips, s, h4) = first_field _ (ips_read _) h3 in
        let (c, t, h5) = first_field _ (z.string_reads _) h4 in
        subst (IsUser get) (some_injective h5) (p, q, r, s, t),
    λ h.
        rw
          (
            (z.string_reads _ _).1 h.0,
            (texts_read _ _).1 h.1,
            (enum-IsAccess _ _).1 h.2,
            (ips_read _ _).1 h.3,
            (z.string_reads _ _).1 h.4,
          )
          refl,
  ))

  pub auth_user_list_item_schema-Reads :
      Reads (auth_user_list_item_schema z) (IsObject IsAuthUserListItem)
  unfolding auth_user_list_item_schema
  auth_user_list_item_schema-Reads = z.object_reads _ IsAuthUserListItem (λ get u. (
    λ h.
        let (i, p, h1) = first_field _ (z.number_reads _) h in
        let (n, q, h2) = first_field _ (z.string_reads _) h1 in
        let (a, r, h3) = first_field _ (enum-IsRole _) h2 in
        let (ds, s, h4) = first_field _ (some_texts_read _) h3 in
        let (c, t, h5) = first_field _ (z.string_reads _) h4 in
        subst (IsAuthUserListItem get) (some_injective h5) (p, q, r, s, t),
    λ h.
        rw
          (
            (z.number_reads _ _).1 h.0,
            (z.string_reads _ _).1 h.1,
            (enum-IsRole _ _).1 h.2,
            (some_texts_read _ _).1 h.3,
            (z.string_reads _ _).1 h.4,
          )
          refl,
  ))
