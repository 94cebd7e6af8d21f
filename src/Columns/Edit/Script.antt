-- ===== src/Columns/Edit/Script.antt =====
-- backend/ui/src/components/dialogs/EditColumnDialog.tsx: the statements of the dialog against what
-- the form asks for.
use mathlib.Core.Path.{subst}
use pgmanager.Common.{
  ◌≡◌, ◌↔◌, ap, sym, Bool, true, false, not, Option, none, some, List, [], ◌∷◌, ◌++◌, Text, text,
  text_eq, text_eq_iff, text_eq_cases, is_empty, if◌then◌else◌, or_else, inl, inr, arith,
}
use pgmanager.Schemas.{ColumnInfo}
use pgmanager.Columns.Edit.{
  Form, type_string, rename_stmt, alter_column, when, nullable_stmts, default_stmts, statements,
}

-- The actions of `ALTER TABLE` that concern one column.
pub data Alter : Type 0 where
  rename set_type set_default : Text → Alter
  drop_not_null set_not_null drop_default : Alter

-- An action as a statement about the column that is called `name` by then.
abbrev pub render : Text → Text → Alter → Text
render table name (rename n) = rename_stmt table name n
render table name (set_type t) = alter_column table name (text "TYPE " ++ t)
render table name (set_default d) = alter_column table name (text "SET DEFAULT " ++ d)
render table name drop_not_null = alter_column table name (text "DROP NOT NULL")
render table name set_not_null = alter_column table name (text "SET NOT NULL")
render table name drop_default = alter_column table name (text "DROP DEFAULT")

abbrev pub renamed : Text → Alter → Text
renamed name (rename n) = n
renamed name _ = name

-- A list of actions as a script: each statement names the column as the ones before it left it.
pub script : Text → Text → List Alter → List Text
script table name [] = []
script table name (a ∷ rest) = render table name a ∷ script table (renamed name a) rest

-- What an action does to the column.
abbrev pub apply : Alter → ColumnInfo → ColumnInfo
apply (rename n) c = record c { name = n }
apply (set_type t) c = record c { type = t }
apply (set_default d) c = record c { default = some d }
apply drop_not_null c = record c { nullable = true }
apply set_not_null c = record c { nullable = false }
apply drop_default c = record c { default = none }

pub apply_all : List Alter → ColumnInfo → ColumnInfo
apply_all [] c = c
apply_all (a ∷ rest) c = apply_all rest (apply a c)

-- The default that the form asks for: an empty field stands for none.
abbrev pub wanted_default : Text → Option Text
wanted_default d = if is_empty d then none else some d

abbrev pub kept_default : ColumnInfo → Text → Option Text
kept_default c d = if text_eq d (or_else c.default []) then c.default else wanted_default d

-- The column that the form describes.
pub target : ColumnInfo → Form → ColumnInfo
target c form = record {
  name = form.new_name;
  type = type_string form;
  nullable = form.new_nullable;
  default = kept_default c form.new_default;
  is_primary_key = c.is_primary_key;
}

abbrev act : Bool → Alter → List Alter
act b a = if b then a ∷ [] else []

null_alters : Bool → Bool → List Alter
null_alters true false = drop_not_null ∷ []
null_alters false true = set_not_null ∷ []
null_alters _ _ = []

default_alters : Bool → Text → List Alter
default_alters true d = []
default_alters false [] = drop_default ∷ []
default_alters false (x ∷ d) = set_default (x ∷ d) ∷ []

tail_alters : ColumnInfo → Form → List Alter
tail_alters c form =
    act (not (text_eq (type_string form) c.type)) (set_type (type_string form))
    ++ (null_alters form.new_nullable c.nullable
        ++ default_alters (text_eq form.new_default (or_else c.default [])) form.new_default)

-- The statements after the first are about the new name.
tail_stmts : (table : Text) (c : ColumnInfo) (form : Form) → List Text
tail_stmts table c form =
    when (not (text_eq (type_string form) c.type))
      (alter_column table form.new_name (text "TYPE " ++ type_string form))
    ++ (nullable_stmts table c form ++ default_stmts table c form)

tail_script :
    (table : Text) (c : ColumnInfo) (form : Form)
    → tail_stmts table c form ≡ script table form.new_name (tail_alters c form)
unfolding tail_stmts tail_alters nullable_stmts default_stmts script null_alters default_alters
    is_empty
tail_script table c form = ground arith

tail_apply :
    (c : ColumnInfo) (form : Form)
    → c.name ≡ form.new_name
    → apply_all (tail_alters c form) c ≡ target c form
unfolding tail_alters apply_all null_alters default_alters is_empty target
tail_apply c form h = ground (arith, text_eq_iff (type_string form) c.type)

rename_apply :
    (c : ColumnInfo) (form : Form)
    → apply_all (tail_alters c form) (record c { name = form.new_name }) ≡ target c form
unfolding tail_alters apply_all null_alters default_alters is_empty target
rename_apply c form = ground (arith, text_eq_iff (type_string form) c.type)

-- The statements of the dialog are a script of actions on the column, each about the name that the
-- column has by then, and the actions together turn the column into the one that the form describes.
pub statements-script :
    (table : Text) (c : ColumnInfo) (form : Form)
    → (acts : List Alter) × (statements table c form ≡ script table c.name acts)
      × (apply_all acts c ≡ target c form)
unfolding statements
statements-script table c form = elim (text_eq_cases form.new_name c.name) [
  | inl (same, e) ↦ (
    tail_alters c form,
    rw e (
        unfold tail_stmts in
        subst (λ n. tail_stmts table c form ≡ script table n (tail_alters c form)) same
          (tail_script table c form)),
    tail_apply c form (sym same),
  )
  | inr (_, e) ↦ (
    rename form.new_name ∷ tail_alters c form,
    rw e (
        unfold tail_stmts script in
        ap (λ r. rename_stmt table c.name form.new_name ∷ r) (tail_script table c form)),
    unfold apply_all in rename_apply c form,
  )
]

-- Nothing is sent exactly when the form describes the column as it is.
pub statements-eq-nil_iff :
    (table : Text) (c : ColumnInfo) (form : Form)
    → (statements table c form ≡ []) ↔ (target c form ≡ c)
unfolding statements nullable_stmts default_stmts target is_empty
statements-eq-nil_iff table c form = ground (
  arith,
  text_eq_iff (type_string form) c.type,
  text_eq_iff form.new_name c.name,
  text_eq_iff form.new_default (or_else c.default []),
)
