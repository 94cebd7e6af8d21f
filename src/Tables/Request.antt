-- ===== src/Tables/Request.antt =====
-- backend/ui/src/routes/DatabaseDetail.tsx: what `handleCreateTable` sends.
use pgmanager.Common.{
  ◌≡◌, sym, ◌∙◌, refl, ap, Bool, false, not, List, [], ◌∷◌, map, Text, text, is_empty, trim,
  filter_by, arith, inl, inr, Bool-cases, none,
}
use pgmanager.Names.{Checked, ok, bad, parse_name}
use pgmanager.Names.Identifier.{IsIdentifier, parse_name_iff}
use pgmanager.Tables.{
  ColumnDraft, NewColumn, new_column, Form, Submitted, create, toast, has_unnamed, submit_valid,
  submit_checked, valid_columns, submit, update_column, set_default, update,
}

abbrev is_named : ColumnDraft → Bool
is_named c = not (is_empty (trim c.name))

has_unnamed-filter : (cs : List ColumnDraft) → has_unnamed (filter_by is_named cs) ≡ false
unfolding has_unnamed
has_unnamed-filter [] = refl
has_unnamed-filter (c ∷ cs) = elim (Bool-cases (is_empty (trim c.name))) [
  | inl e ↦ rw e (has_unnamed-filter cs)
  | inr e ↦ rw e (rw e (has_unnamed-filter cs))
]

submit_valid-some :
    (form : Form) (name : Text) (c : ColumnDraft) (cs : List ColumnDraft)
    → has_unnamed (c ∷ cs) ≡ false
    → submit_valid form name (c ∷ cs) ≡ (
      record form { table_name_error = none; columns = c ∷ cs },
      create name (map new_column (c ∷ cs)),
    )
unfolding submit_valid
submit_valid-some form name c cs h = rw h

-- What the form comes to when its name is accepted.
abbrev pub Accepted : Form → Text → List ColumnDraft → Form × Submitted → Type 0
Accepted form name [] r = r ≡ (form, toast (text "Add at least one column"))
Accepted form name (c ∷ cs) r = r ≡ (
  record form { table_name_error = none; columns = c ∷ cs },
  create name (map new_column (c ∷ cs)),
)

submit_valid-Accepted :
    (form : Form) (name : Text) (cs : List ColumnDraft)
    → has_unnamed cs ≡ false
    → Accepted form name cs (submit_valid form name cs)
submit_valid-Accepted form name [] h = unfold submit_valid in refl
submit_valid-Accepted form name (c ∷ cs) h = submit_valid-some form name c cs h

-- A table name that is an identifier is accepted: the table is created under the name without its
-- outer blanks, with the columns whose name is not blank, in their order, and those replace the
-- drafts; if there is none, a toast asks for one and the form stays as it is. (So the third toast
-- of the source, for a column with no name, is never shown.)
pub submit-Accepted :
    (form : Form)
    → IsIdentifier (trim form.new_table_name)
    → Accepted form (trim form.new_table_name) (valid_columns form.columns) (submit form)
unfolding submit submit_checked valid_columns
submit-Accepted form h =
    rw ((parse_name_iff form.new_table_name (trim form.new_table_name)).1 (refl, h))
      (submit_valid-Accepted form (trim form.new_table_name) _ (has_unnamed-filter form.columns))

filter-update_column :
    (id v : Text) (cs : List ColumnDraft)
    → map new_column (filter_by is_named (update_column id (set_default v) cs))
      ≡ map new_column (filter_by is_named cs)
unfolding update_column update new_column
filter-update_column id v [] = refl
filter-update_column id v (c ∷ cs) = ground (arith, filter-update_column id v cs)

submitted_of : Text → List NewColumn → Submitted
submitted_of name [] = toast (text "Add at least one column")
submitted_of name (c ∷ cs) = create name (c ∷ cs)

submit_valid-submitted_of :
    (form : Form) (name : Text) (cs : List ColumnDraft)
    → has_unnamed cs ≡ false
    → (submit_valid form name cs).1 ≡ submitted_of name (map new_column cs)
unfolding submit_valid submitted_of
submit_valid-submitted_of form name [] h = refl
submit_valid-submitted_of form name (c ∷ cs) h = rw h

abbrev pub with_default : Text → Text → Form → Form
with_default id v form = record form { columns = update_column id (set_default v) form.columns }

submit_checked-default :
    (id v : Text) (form : Form) (r : Checked)
    → (submit_checked (with_default id v form) r).1 ≡ (submit_checked form r).1
unfolding submit_checked valid_columns
submit_checked-default id v form (bad e) = refl
submit_checked-default id v form (ok name) =
    submit_valid-submitted_of (with_default id v form) name _
      (has_unnamed-filter (update_column id (set_default v) form.columns))
    ∙ (ap (submitted_of name) (filter-update_column id v form.columns)
        ∙ sym (submit_valid-submitted_of form name _ (has_unnamed-filter form.columns)))

-- The default that is typed for a column never reaches the server: whatever is typed into the
-- DEFAULT input of a draft, the same columns are sent.
pub submit-set_default :
    (id v : Text) (form : Form) → (submit (with_default id v form)).1 ≡ (submit form).1
unfolding submit
submit-set_default id v form = submit_checked-default id v form (parse_name form.new_table_name)
