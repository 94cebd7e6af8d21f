-- ===== src/Columns/Structure/Stale.antt =====
-- backend/ui/src/components/tabs/StructureTab.tsx: what the dialog shows when a column is edited.
use pgmanager.Common.{
  ◌≡◌, ◌≢◌, refl, sym, ap, ◌∙◌, Bool, true, false, some, List, [], ◌∷◌, ◌++◌, Text, text, text_eq,
  text_eq_cases, inl, inr, text_eq_refl, is_empty, arith, if◌then◌else◌, or_else,
}
use pgmanager.PgTypes.{build_type_string}
use pgmanager.Ui.{optional_int}
use pgmanager.Schemas.{ColumnInfo}
use pgmanager.Columns.Edit.{Form, change, name, statements, alter_column, type_string}
use pgmanager.Columns.Structure.{Tab, Event, edit, open_change, input, mount, step, steps}

-- The event is not one of the dialog's inputs.
abbrev pub IsClick : Event → Type 0
IsClick (edit c) = Unit
IsClick (open_change b) = Unit
IsClick (input i) = ⊥

abbrev pub AllClicks : List Event → Type 0
AllClicks [] = Unit
AllClicks (e ∷ es) = IsClick e × AllClicks es

step-form : (tab : Tab) (e : Event) → IsClick e → (step tab e).form ≡ tab.form
unfolding step
step-form tab (edit c) h = refl
step-form tab (open_change true) h = refl
step-form tab (open_change false) h = refl
step-form tab (input i) h = absurd h

steps-edit :
    (es : List Event) (c : ColumnInfo) (tab : Tab)
    → AllClicks es
    → steps tab (es ++ edit c ∷ []) ≡ record { edit_column = some c; form = tab.form }
unfolding steps
steps-edit [] c tab h = unfold step in refl
steps-edit (e ∷ es) c tab h =
    steps-edit es c (step tab e) h.1
    ∙ ap (λ f. record { edit_column = some c; form = f }) (step-form tab e h.0)

-- The form of a dialog that was mounted with no column: no name, the type TEXT, nullable, and no
-- default.
abbrev pub blank : Form
blank = record {
  new_name = [];
  new_type = text "TEXT";
  new_length = [];
  new_precision = [];
  new_scale = [];
  new_nullable = true;
  new_default = [];
}

-- However often dialogs were opened and closed before, a click on the pencil of a column shows the
-- blank form, not the column's name, type, nullability and default.
pub steps-edit-blank :
    (es : List Event) (c : ColumnInfo)
    → AllClicks es
    → steps mount (es ++ edit c ∷ []) ≡ record { edit_column = some c; form = blank }
unfolding mount
steps-edit-blank es c h = steps-edit es c mount h

abbrev pub unless : Bool → Text → List Text
unless b s = if b then [] else s ∷ []

name_only : ColumnInfo → Form
name_only c = record blank { new_name = c.name }

text_eq-nil : (d : Text) → text_eq [] d ≡ is_empty d
unfolding text_eq is_empty
text_eq-nil [] = refl
text_eq-nil (x ∷ d) = refl

blank_stmts :
    (table : Text) (c : ColumnInfo)
    → c.type ≢ text "TEXT"
    → statements table c (name_only c)
      ≡ alter_column table c.name (text "TYPE TEXT")
          ∷ unless c.nullable (alter_column table c.name (text "DROP NOT NULL"))
        ++ unless
            (is_empty (or_else c.default []))
            (alter_column table c.name (text "DROP DEFAULT"))
unfolding statements name_only type_string build_type_string optional_int is_empty text
blank_stmts table c ne =
    let differs : text_eq (text "TEXT") c.type ≡ false = elim (text_eq_cases (text "TEXT") c.type) [
      | inl (e, _) ↦ absurd (ne (sym e))
      | inr (_, e) ↦ e
    ] in
    rw (text_eq_refl c.name, differs, text_eq-nil (or_else c.default [])) (ground arith)

-- A user who opens a column that is not of type TEXT and types its own name, and nothing else,
-- sends a change of its type to TEXT, a `DROP NOT NULL` if it is not nullable, and a `DROP DEFAULT`
-- if it has a default.
pub statements-edit_name :
    (es : List Event) (table : Text) (c : ColumnInfo)
    → AllClicks es
    → c.type ≢ text "TEXT"
    → statements table c (step (steps mount (es ++ edit c ∷ [])) (input (name c.name))).form
      ≡ alter_column table c.name (text "TYPE TEXT")
          ∷ unless c.nullable (alter_column table c.name (text "DROP NOT NULL"))
        ++ unless
            (is_empty (or_else c.default []))
            (alter_column table c.name (text "DROP DEFAULT"))
unfolding statements step change
statements-edit_name es table c h ne =
    rw (steps-edit-blank es c h) (unfold name_only in blank_stmts table c ne)
