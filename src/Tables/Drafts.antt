-- ===== src/Tables/Drafts.antt =====
-- backend/ui/src/routes/DatabaseDetail.tsx: what holds of the drafts of columns while they are
-- edited.
use mathlib.Core.Path.{subst}
use pgmanager.Common.{
  Bool, All-filter_by, ◌||◌, length-append, length-map, sym, ◌∙◌, suc, ◌≡◌, ◌≢◌, ◌≤◌, refl, true,
  false, not, List, [], ◌∷◌, ◌++◌, map, Text, text_eq, text_eq_cases, filter_by, length, leb,
  if◌then◌else◌, All, All-append, arith, inl, inr, Bool-cases,
}
use pgmanager.Tables.{
  ColumnDraft, new_column_draft, add_column, remove_column, Update, set_name, set_nullable,
  set_primary_key, update, update_column,
}

-- What a user does to the drafts. The box "Nullable" is there only for a draft that is no primary
-- key, and the box "PK" hands over the `nullable` of the draft.
pub data Edit : Type 0 where
  add remove : Text → Edit
  change : Text → Update → Edit

unfoldable pub edit : Edit → List ColumnDraft → List ColumnDraft
edit (add id) cs = add_column id cs
edit (remove id) cs = remove_column id cs
edit (change id u) cs = update_column id u cs

-- An identifier that `generateId` returns is new. The update can be made from the input of a draft as it is shown.
abbrev pub IsOffered : Update → ColumnDraft → Type 0
IsOffered (set_nullable v) c = c.is_primary_key ≡ false
IsOffered (set_primary_key v was) c = was ≡ c.nullable
IsOffered u c = Unit

abbrev pub IsOfferedBy : Edit → List ColumnDraft → Type 0
IsOfferedBy (add id) cs = All (λ c. c.id ≢ id) cs
IsOfferedBy (remove id) cs = Unit
IsOfferedBy (change id u) cs = All (λ c. c.id ≡ id → IsOffered u c) cs

-- A primary key is not nullable.
abbrev pub IsSound : ColumnDraft → Type 0
IsSound c = (not c.is_primary_key || not c.nullable) ≡ true

-- No two drafts share an identifier.
abbrev pub Distinct : List ColumnDraft → Type 0
Distinct [] = Unit
Distinct (c ∷ cs) = All (λ d. d.id ≢ c.id) cs × Distinct cs

-- There is a draft, the identifiers differ, and each primary key is not nullable.
pub record IsValid (cs : List ColumnDraft) : Type 0 where
  pub distinct : Distinct cs
  pub some_left : 1 ≤ length cs
  pub sound : All IsSound cs

update-IsSound : (u : Update) (c : ColumnDraft) → IsOffered u c → IsSound c → IsSound (update u c)
unfolding update
update-IsSound (set_name v) c o h = h
update-IsSound (set_nullable v) c o h = ground arith
update-IsSound (set_primary_key v was) c o h = ground arith
update-IsSound u c o h = h

update-id : (u : Update) (c : ColumnDraft) → (update u c).id ≡ c.id
unfolding update
update-id (set_name v) c = refl
update-id _ c = refl

pub Distinct-filter_by :
    (p : ColumnDraft → Bool) (cs : List ColumnDraft) → Distinct cs → Distinct (filter_by p cs)
Distinct-filter_by p [] h = tt
Distinct-filter_by p (c ∷ cs) h = elim (Bool-cases (p c)) [
  | inl e ↦ rw e (All-filter_by (λ d. d.id ≢ c.id) p cs h.0, Distinct-filter_by p cs h.1)
  | inr e ↦ rw e (Distinct-filter_by p cs h.1)
]

module _ (id : Text) where
  abbrev others : List ColumnDraft → List ColumnDraft
  others cs = filter_by (λ c. not (text_eq c.id id)) cs

  others-All : (cs : List ColumnDraft) → All (λ d. d.id ≢ id) cs → others cs ≡ cs
  others-All [] h = refl
  others-All (c ∷ cs) h = elim (text_eq_cases c.id id) [
    | inl (e, _) ↦ absurd (h.0 e)
    | inr (_, e) ↦ rw (e, others-All cs h.1)
  ]

  length-others : (cs : List ColumnDraft) → Distinct cs → length cs ≤ suc (length (others cs))
  length-others [] h = omega arith
  length-others (c ∷ cs) h = elim (text_eq_cases c.id id) [
    | inl (p, e) ↦
        rw e (rw (others-All cs (subst (λ i. All (λ d. d.id ≢ i) cs) p h.0)) (omega arith))
    | inr (_, e) ↦ rw e (omega (arith, length-others cs h.1))
  ]

  remove-IsValid : (cs : List ColumnDraft) → IsValid cs → IsValid (remove_column id cs)
  unfolding remove_column
  remove-IsValid cs v = elim (Bool-cases (leb (length cs) 1)) [
    | inl e ↦ rw e v
    | inr e ↦ rw e (record {
      distinct = Distinct-filter_by (λ c. not (text_eq c.id id)) cs v.distinct;
      some_left = ground (arith, length-others cs v.distinct);
      sound = All-filter_by IsSound (λ c. not (text_eq c.id id)) cs v.sound;
    })
  ]

  module _ (u : Update) where
    abbrev updated : ColumnDraft → ColumnDraft
    updated c = if text_eq c.id id then update u c else c

    updated-id : (c : ColumnDraft) → (updated c).id ≡ c.id
    updated-id c = ground (arith, update-id u c)

    All-updated :
        (i : Text) (cs : List ColumnDraft)
        → All (λ d. d.id ≢ i) cs
        → All (λ d. d.id ≢ i) (map updated cs)
    All-updated i [] h = tt
    All-updated i (c ∷ cs) h = (λ e. h.0 (sym (updated-id c) ∙ e), All-updated i cs h.1)

    Distinct-updated : (cs : List ColumnDraft) → Distinct cs → Distinct (map updated cs)
    Distinct-updated [] h = tt
    Distinct-updated (c ∷ cs) h = (
      subst (λ i. All (λ d. d.id ≢ i) (map updated cs)) (sym (updated-id c))
          (All-updated c.id cs h.0),
      Distinct-updated cs h.1,
    )

    updated-IsSound :
        (cs : List ColumnDraft)
        → All (λ c. c.id ≡ id → IsOffered u c) cs
        → All IsSound cs
        → All IsSound (map updated cs)
    updated-IsSound [] o h = tt
    updated-IsSound (c ∷ cs) o h = elim (text_eq_cases c.id id) [
      | inl (p, e) ↦ (rw e (update-IsSound u c (o.0 p) h.0), updated-IsSound cs o.1 h.1)
      | inr (_, e) ↦ (rw e h.0, updated-IsSound cs o.1 h.1)
    ]

Distinct-append :
    (id : Text) (cs : List ColumnDraft)
    → All (λ c. c.id ≢ id) cs
    → Distinct cs
    → Distinct (cs ++ new_column_draft id ∷ [])
unfolding new_column_draft
Distinct-append id [] h k = (tt, tt)
Distinct-append id (c ∷ cs) h k =
    (All-append (λ d. d.id ≢ c.id) cs _ k.0 (λ e. h.0 (sym e), tt), Distinct-append id cs h.1 k.1)

-- Every edit that the form offers keeps the drafts valid: there stays one at least, the identifiers
-- stay distinct, and a draft that is marked as a primary key is not nullable.
pub edit-IsValid :
    (e : Edit) (cs : List ColumnDraft) → IsOfferedBy e cs → IsValid cs → IsValid (edit e cs)
unfolding edit add_column update_column new_column_draft
edit-IsValid (add id) cs o v = record {
  distinct = Distinct-append id cs o v.distinct;
  some_left = omega (arith, length-append {0} cs (new_column_draft id ∷ []));
  sound = All-append IsSound cs _ v.sound (refl, tt);
}
edit-IsValid (remove id) cs o v = remove-IsValid id cs v
edit-IsValid (change id u) cs o v = record {
  distinct = Distinct-updated id u cs v.distinct;
  some_left = omega (arith, length-map {0, 0} cs (updated id u), v.some_left);
  sound = updated-IsSound id u cs o v.sound;
}
