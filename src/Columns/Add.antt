-- ===== src/Columns/Add.antt =====
-- backend/ui/src/components/dialogs/AddColumnDialog.tsx
pub mod Sent
use pgmanager.Common.{
  run, is_some, ◌&&◌, Bool, true, false, not, ◌||◌, Option, none, some, List, [], ◌∷◌, Text, text,
  is_empty, if◌then◌else◌,
}
use pgmanager.Schemas.{ColumnDef}
use pgmanager.Ui.{Effect, toast_success, toast_error, close, invalidate}
use pgmanager.TypeForm.{typed, type_def, has_length, has_precision}

pub record Form : Type 0 where
  pub col_name : Text
  pub col_type : Text
  pub col_nullable : Bool
  pub col_default : Text
  pub col_length : Text
  pub col_precision : Text
  pub col_scale : Text

unfoldable pub initial : Form
initial = record {
  col_name = [];
  col_type = text "TEXT";
  col_nullable = true;
  col_default = [];
  col_length = [];
  col_precision = [];
  col_scale = [];
}

-- The column that `mutationFn` sends: `default` is set only if it is not empty.
unfoldable pub column_def : Form → ColumnDef
column_def form = record {
  name = form.col_name;
  type = typed form.col_type form.col_length form.col_precision form.col_scale;
  nullable = form.col_nullable;
  default = if is_empty form.col_default then none else some form.col_default;
  is_primary_key = false;
}

-- Whether "Add Column" can be clicked.
unfoldable pub can_add : Form → Bool → Bool
can_add form is_pending = not (is_empty form.col_name || is_pending)

-- `onSuccess` and `onError`
unfoldable pub settled : Text → Text → Option Text → Form → Form × List Effect
unfolding initial
settled db table none form = (
  initial,
  toast_success (text "Column added") ∷ close ∷ invalidate (text "columns" ∷ db ∷ table ∷ []) ∷ [],
)
settled db table (some e) form = (form, toast_error e ∷ [])

-- The dialog; `sent` are the columns given to the mutation, the latest first.
pub record Dialog : Type 0 where
  pub is_open : Bool
  pub form : Form
  pub is_pending : Bool
  pub sent : List ColumnDef

unfoldable pub mounted : Dialog
unfolding initial
mounted = record { is_open = false; form = initial; is_pending = false; sent = [] }

pub data Input : Type 0 where
  type_name choose_type type_default type_length type_precision type_scale : Text → Input
  check_nullable : Bool → Input

-- A type is chosen from the list; the inputs of a length and of a precision and scale are there for
-- some types only.
unfoldable pub change : Input → Form → Form
unfolding type_def has_length has_precision
change (type_name s) f = record f { col_name = s }
change (choose_type t) f = if is_some (type_def t) then record f { col_type = t } else f
change (type_default s) f = record f { col_default = s }
change (type_length s) f = if has_length f.col_type then record f { col_length = s } else f
change (type_precision s) f = if has_precision f.col_type then record f { col_precision = s } else f
change (type_scale s) f = if has_precision f.col_type then record f { col_scale = s } else f
change (check_nullable b) f = record f { col_nullable = b }

pub data Event : Type 0 where
  opens closes adds : Event
  inputs : Input → Event
  answered : Option Text → Event

module _ (db table : Text) where
  -- The answer to the mutation.
  unfoldable pub on_answer : Option Text → Dialog → Dialog
  unfolding settled
  on_answer r s = record s {
    is_open = is_some r && s.is_open;
    form = (settled db table r s.form).0;
    is_pending = false;
  }

  unfoldable pub step : Event → Dialog → Dialog
  unfolding change can_add column_def on_answer
  step opens s = record s { is_open = true }
  step closes s = record s { is_open = false }
  step adds s =
      if s.is_open && can_add s.form s.is_pending
      then record s { is_pending = true; sent = column_def s.form ∷ s.sent }
      else s
  step (inputs i) s = if s.is_open then record s { form = change i s.form } else s
  step (answered r) s = if s.is_pending then on_answer r s else s

  unfoldable pub steps : List Event → Dialog → Dialog
  unfolding step
  steps es s = run step es s
