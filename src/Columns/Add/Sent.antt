-- ===== src/Columns/Add/Sent.antt =====
-- Which columns the dialog sends.
use pgmanager.Common.{
  run_keep, if_keep, ◌≡◌, ◌∙◌, refl, ap, sym, or_else, Bool, true, false, ◌&&◌, Bool-cases, none,
  some, Option-cases, List, [], ◌∷◌, Text, text, text_eq, text_eq_iff, is_empty, find, All, inl,
  inr, arith,
}
use pgmanager.Schemas.{ColumnDef}
use pgmanager.Ui.{optional_int}
use pgmanager.PgTypes.{
  PostgresTypeItem, TypeParams, postgresql_types, build_type_string, get_type_category,
}
use pgmanager.PgTypes.Categories.{IsKept, get_type_category-build}
use pgmanager.TypeForm.{type_def, typed, has_length, has_precision}
use pgmanager.Columns.Add.{
  Form, initial, column_def, can_add, Dialog, mounted, Input, type_name, choose_type, type_default,
  type_length, type_precision, type_scale, check_nullable, change, Event, opens, closes, adds,
  inputs, answered, settled, on_answer, step, steps,
}

-- What `find` gives is in the list and passes the test.
find-All {ℓ κ} :
    {A : Type ℓ} (P : A → Type κ) (p : A → Bool) (xs : List A) (a : A)
    → All P xs
    → find p xs ≡ some a
    → P a × (p a ≡ true)
find-All P p [] a h e = absurd (ground (arith, e))
find-All P p (x ∷ xs) a h e = elim (Bool-cases (p x)) [
  | inl t ↦ let q : x ≡ a = ap (λ o. or_else o x) (rw t at e) in rw (sym q) (h.0, t)
  | inr t ↦ find-All P p xs a h.1 (rw t at e)
]

-- A type that the list offers.
abbrev pub IsOffered : Text → Type 0
IsOffered type = (t : PostgresTypeItem) × (type_def type ≡ some t)

-- A column with a name, and with a type that is built from an offered type and has its category.
abbrev pub IsColumn : ColumnDef → Type 0
IsColumn c =
    (is_empty c.name ≡ false)
    × (c.is_primary_key ≡ false)
    × ((t : PostgresTypeItem) × (type_def t.value ≡ some t)
        × (get_type_category c.type ≡ t.category)
        × ((p : TypeParams) × (c.type ≡ build_type_string t.value p)))

typed-category :
    (type l p s : Text) (t : PostgresTypeItem)
    → type_def type ≡ some t
    → (t.value ≡ type) × (get_type_category (typed type l p s) ≡ t.category)
unfolding type_def typed
typed-category type l p s t e =
    let k =
      find-All
        (IsKept
          (record { length = optional_int l; precision = optional_int p; scale = optional_int s }))
        (λ t. text_eq t.value type) postgresql_types t
        (get_type_category-build (optional_int l) (optional_int p) (optional_int s) []).0 e in
    let v : t.value ≡ type = (text_eq_iff t.value type).0 k.1 in (v, rw v at k.0)

abbrev IsGood : Dialog → Type 0
IsGood s = IsOffered s.form.col_type × All IsColumn s.sent

built :
    (type l p s : Text) (t : PostgresTypeItem)
    → t.value ≡ type
    → (q : TypeParams) × (typed type l p s ≡ build_type_string t.value q)
unfolding typed
built type l p s t v =
    let params : TypeParams = record {
      length = optional_int l;
      precision = optional_int p;
      scale = optional_int s;
    } in
    (params, ap (λ b. build_type_string b params) (sym v))

column_def-IsColumn :
    (f : Form) → is_empty f.col_name ≡ false → IsOffered f.col_type → IsColumn (column_def f)
unfolding column_def
column_def-IsColumn f n (t, e) =
    let k = typed-category f.col_type f.col_length f.col_precision f.col_scale t e in
    (
      n,
      refl,
      (
        t,
        ap type_def k.0 ∙ e,
        k.1,
        built f.col_type f.col_length f.col_precision f.col_scale t k.0,
      ),
    )

change-IsOffered : (i : Input) (f : Form) → IsOffered f.col_type → IsOffered (change i f).col_type
unfolding change
change-IsOffered (type_name s) f h = h
change-IsOffered (choose_type type) f h = elim (Option-cases (type_def type)) [
  | inl e ↦ rw e h
  | inr (t, e) ↦ rw e (t, e)
]
change-IsOffered (type_default s) f h = h
change-IsOffered (type_length s) f h =
    if_keep (λ f'. IsOffered f'.col_type) (has_length f.col_type) (record f { col_length = s }) f h
      h
change-IsOffered (type_precision s) f h =
    if_keep (λ f'. IsOffered f'.col_type) (has_precision f.col_type)
      (record f { col_precision = s }) f h h
change-IsOffered (type_scale s) f h =
    if_keep (λ f'. IsOffered f'.col_type) (has_precision f.col_type) (record f { col_scale = s }) f
      h h
change-IsOffered (check_nullable b) f h = h

initial-IsOffered : IsOffered initial.col_type
unfolding initial type_def postgresql_types text text_eq
initial-IsOffered = (_, refl)

module _ (db table : Text) where
  step-IsGood : (e : Event) (s : Dialog) → IsGood s → IsGood (step db table e s)
  unfolding step on_answer settled can_add
  step-IsGood opens s h = h
  step-IsGood closes s h = h
  step-IsGood adds s h = elim (Bool-cases (s.is_open && can_add s.form s.is_pending)) [
    | inl e ↦ rw e (h.0, (column_def-IsColumn s.form (ground (arith, e)) h.0, h.1))
    | inr e ↦ rw e h
  ]
  step-IsGood (inputs i) s h =
      if_keep IsGood s.is_open (record s { form = change i s.form }) s
        (change-IsOffered i s.form h.0, h.1) h
  step-IsGood (answered none) s h =
      if_keep IsGood s.is_pending (on_answer db table none s) s (initial-IsOffered, h.1) h
  step-IsGood (answered (some m)) s h =
      if_keep IsGood s.is_pending (on_answer db table (some m) s) s h h

  -- Whatever is opened, typed, chosen, clicked and answered, every column that the dialog sends has a
  -- name and is no primary key, and its type is a string that `buildTypeString` builds from an offered
  -- type and in which `getTypeCategory` finds the category of that type.
  pub steps-IsColumn : (es : List Event) → All IsColumn (steps db table es mounted).sent
  unfolding steps mounted
  steps-IsColumn es =
      (run_keep (step db table) IsGood step-IsGood es mounted (initial-IsOffered, tt)).1
