-- ===== src/Tables/Dialog/Sent.antt =====
-- What the dialog can come to send.
use pgmanager.Common.{
  ◌≡◌, ◌≤◌, refl, not, ◌||◌, true, false, Option, none, some, List, [], ◌∷◌, map, Text, is_empty,
  trim, length, All, Bool, All-filter_by, filter_by-All, Bool-cases, inl, inr, arith,
}
use pgmanager.Names.{Checked, ok, bad, parse_name}
use pgmanager.Names.Identifier.{IsIdentifier, parse_name_iff}
use pgmanager.Tables.{
  ColumnDraft, Form, initial, serial_column_draft, NewColumn, new_column, Submitted, bad_name,
  toast, create, submit_valid, submit_checked, valid_columns, submit, settled, has_unnamed,
}
use pgmanager.Tables.Drafts.{Distinct, Distinct-filter_by, IsSound, IsValid, edit-IsValid}
use pgmanager.Tables.Dialog.{
  Dialog, mounted, send, set_open, set_name, Step, opens, closes, names, edits, submits, answered,
  Reach, start, after,
}

-- A column with a name that is not blank, which is not nullable if it is a primary key.
abbrev pub IsColumn : NewColumn → Type 0
IsColumn c = (is_empty (trim c.name) ≡ false) × ((not c.is_primary_key || not c.nullable) ≡ true)

-- A table with an identifier for a name and at least one column.
abbrev pub IsTable : Text × List NewColumn → Type 0
IsTable t = IsIdentifier t.0 × (1 ≤ length t.1) × All IsColumn t.1

abbrev IsGood : Dialog → Type 0
IsGood s = IsValid s.form.columns × All IsTable s.sent

-- What a submission of valid drafts may come to: valid drafts again, and a table if one is sent.
abbrev IsSent : Form × Submitted → Type 0
IsSent (f, bad_name e) = IsValid f.columns
IsSent (f, toast e) = IsValid f.columns
IsSent (f, create name columns) = IsValid f.columns × IsTable (name, columns)

abbrev is_named : ColumnDraft → Bool
is_named c = not (is_empty (trim c.name))

new_column-All :
    (cs : List ColumnDraft)
    → All (λ c. is_named c ≡ true) cs
    → All IsSound cs
    → All IsColumn (map new_column cs)
unfolding new_column
new_column-All [] n h = tt
new_column-All (c ∷ cs) n h = ((ground (arith, n.0), h.0), new_column-All cs n.1 h.1)

submit_valid-IsSent :
    (form : Form) (name : Text) (cs : List ColumnDraft)
    → IsIdentifier name
    → IsValid form.columns
    → Distinct cs
    → All IsSound cs
    → All (λ c. is_named c ≡ true) cs
    → IsSent (submit_valid form name cs)
unfolding submit_valid
submit_valid-IsSent form name [] i v d h n = v
submit_valid-IsSent form name (c ∷ cs) i v d h n = elim (Bool-cases (has_unnamed (c ∷ cs))) [
  | inl e ↦ rw e v
  | inr e ↦ rw e (
    record { distinct = d; some_left = omega arith; sound = h },
    (i, omega arith, new_column-All (c ∷ cs) n h),
  )
]

submit-IsSent : (form : Form) → IsValid form.columns → IsSent (submit form)
unfolding submit submit_checked valid_columns
submit-IsSent form v = by_name (parse_name form.new_table_name) refl
  where
    by_name : (r : Checked) → parse_name form.new_table_name ≡ r → IsSent (submit_checked form r)
    by_name (bad e) q = v
    by_name (ok name) q =
        let (t, i) = (parse_name_iff form.new_table_name name).0 q in
        submit_valid-IsSent form name (valid_columns form.columns) (rw t i) v
          (Distinct-filter_by is_named form.columns v.distinct)
          (All-filter_by IsSound is_named form.columns v.sound)
          (filter_by-All is_named form.columns)

send-IsGood : (r : Form × Submitted) (s : Dialog) → IsSent r → IsGood s → IsGood (send r s)
unfolding send
send-IsGood (f, bad_name e) s k h = (k, h.1)
send-IsGood (f, toast e) s k h = (k, h.1)
send-IsGood (f, create name columns) s k h = (k.0, (k.1, h.1))

initial-IsValid : (id : Text) → IsValid (initial id).columns
unfolding initial serial_column_draft
initial-IsValid id = record { distinct = (tt, tt); some_left = omega arith; sound = (refl, tt) }

settled-IsValid :
    (db id : Text) (r : Option Text) (form : Form)
    → IsValid form.columns
    → IsValid (settled db id r form).0.columns
unfolding settled
settled-IsValid db id none form v = initial-IsValid id
settled-IsValid db id (some e) form v = v

module _ (db : Text) where
  step-IsGood : (s s' : Dialog) → Step db s s' → IsGood s → IsGood s'
  unfolding set_open set_name
  step-IsGood _ _ (opens s) h = h
  step-IsGood _ _ (closes s) h = h
  step-IsGood _ _ (names s name o) h = h
  step-IsGood _ _ (edits s e o k) h = (edit-IsValid e s.form.columns k h.0, h.1)
  step-IsGood _ _ (submits s o p) h = send-IsGood (submit s.form) s (submit-IsSent s.form h.0) h
  step-IsGood _ _ (answered s id r p) h = (settled-IsValid db id r s.form h.0, h.1)

  -- Whatever is opened, typed, added, removed, checked, submitted and answered, the dialog always has
  -- valid drafts, and each table that it sends has an identifier for a name and at least one column,
  -- each with a name that is not blank and, if it is a primary key, not nullable.
  pub Reach-IsTable : (s : Dialog) → Reach db s → IsValid s.form.columns × All IsTable s.sent
  unfolding mounted
  Reach-IsTable _ (start id) = (initial-IsValid id, tt)
  Reach-IsTable _ (after s s' r k) = step-IsGood s s' k (Reach-IsTable s r)
