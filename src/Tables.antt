-- ===== src/Tables.antt =====
-- backend/ui/src/routes/DatabaseDetail.tsx: the form that creates a table.
pub mod Drafts
pub mod Request
pub mod Page
pub mod Dialog
use pgmanager.Common.{
  ℕ, ◌≡◌, refl, Bool, true, false, not, ◌&&◌, ◌||◌, Option, none, some, List, [], ◌∷◌, ◌++◌, map,
  Text, text, text_eq, is_empty, trim, if◌then◌else◌, filter_by, length, leb,
}
use pgmanager.TypeForm.{typed}
use pgmanager.Ui.{Effect, toast_success, toast_error, close, invalidate}
use pgmanager.Names.{Checked, ok, bad, message, parse_name}

pub record ColumnDraft : Type 0 where
  pub id : Text
  pub name : Text
  pub type : Text
  pub length : Text
  pub precision : Text
  pub scale : Text
  pub nullable : Bool
  pub is_primary_key : Bool
  pub default : Text

-- `newColumnDraft()`, with the identifier that `generateId()` returns.
unfoldable pub new_column_draft : Text → ColumnDraft
new_column_draft id = record {
  id = id;
  name = [];
  type = text "TEXT";
  length = [];
  precision = [];
  scale = [];
  nullable = true;
  is_primary_key = false;
  default = [];
}

unfoldable pub serial_column_draft : Text → ColumnDraft
serial_column_draft id = record {
  id = id;
  name = text "id";
  type = text "SERIAL";
  length = [];
  precision = [];
  scale = [];
  nullable = false;
  is_primary_key = true;
  default = [];
}

pub record Form : Type 0 where
  pub create_open : Bool
  pub new_table_name : Text
  pub table_name_error : Option Text
  pub columns : List ColumnDraft

unfoldable pub initial : Text → Form
unfolding serial_column_draft
initial id = record {
  create_open = false;
  new_table_name = [];
  table_name_error = none;
  columns = serial_column_draft id ∷ [];
}

unfoldable pub add_column : Text → List ColumnDraft → List ColumnDraft
unfolding new_column_draft
add_column id columns = columns ++ new_column_draft id ∷ []

unfoldable pub remove_column : Text → List ColumnDraft → List ColumnDraft
remove_column id columns =
    if leb (length columns) 1 then columns else filter_by (λ c. not (text_eq c.id id)) columns

-- `{ ...c, ...updates }` for the objects that the inputs of a draft hand to `updateColumn`.
pub data Update : Type 0 where
  set_name set_type set_length set_precision set_scale set_default : Text → Update
  -- the box "Nullable", which is there only for a draft that is no primary key
  set_nullable : Bool → Update
  -- the box "PK", with the `nullable` of the draft as it was rendered
  set_primary_key : Bool → Bool → Update

unfoldable pub update : Update → ColumnDraft → ColumnDraft
update (set_name v) c = record c { name = v }
update (set_type v) c = record c { type = v }
update (set_length v) c = record c { length = v }
update (set_precision v) c = record c { precision = v }
update (set_scale v) c = record c { scale = v }
update (set_default v) c = record c { default = v }
update (set_nullable v) c = record c { nullable = v }
update (set_primary_key checked was_nullable) c = record c {
  is_primary_key = checked;
  nullable = if checked then false else was_nullable;
}

unfoldable pub update_column : Text → Update → List ColumnDraft → List ColumnDraft
unfolding update
update_column id u columns = map (λ c. if text_eq c.id id then update u c else c) columns

-- A column as `createTable` of api/databases.ts takes it.
pub record NewColumn : Type 0 where
  pub name : Text
  pub type : Text
  pub nullable : Bool
  pub is_primary_key : Bool

unfoldable pub new_column : ColumnDraft → NewColumn
new_column col = record {
  name = col.name;
  type = typed col.type col.length col.precision col.scale;
  nullable = col.nullable;
  is_primary_key = col.is_primary_key;
}

-- What `handleCreateTable` comes to: an error of the name field, a toast, or a call of the mutation
-- with the table's name and, after `setColumns`, the columns that have a name.
pub data Submitted : Type 0 where
  bad_name : Text → Submitted
  toast : Text → Submitted
  create : Text → List NewColumn → Submitted

-- The drafts that `handleCreateTable` keeps: `columns.filter((c) => c.name.trim())`.
unfoldable pub valid_columns : List ColumnDraft → List ColumnDraft
valid_columns columns = filter_by (λ c. not (is_empty (trim c.name))) columns

-- `handleCreateTable`, with what `mutationFn` then sends. It runs after the updates of the state, so
-- its `columns` are the valid ones. The loop that looks for a column with no name finds none among
-- those; it is `has_unnamed`.
has_unnamed : List ColumnDraft → Bool
has_unnamed [] = false
has_unnamed (c ∷ cs) = let rest = has_unnamed cs in if is_empty (trim c.name) then true else rest

submit_valid : Form → Text → List ColumnDraft → Form × Submitted
unfolding has_unnamed new_column
submit_valid form name [] = (form, toast (text "Add at least one column"))
submit_valid form name (c ∷ cs) =
    if has_unnamed (c ∷ cs) then (form, toast (text "All columns must have a name")) else (
      record form { table_name_error = none; columns = c ∷ cs },
      create name (map new_column (c ∷ cs)),
    )

submit_checked : Form → Checked → Form × Submitted
unfolding submit_valid valid_columns
submit_checked form (bad e) =
    let m = message (text "name") e in (record form { table_name_error = some m }, bad_name m)
submit_checked form (ok name) = submit_valid form name (valid_columns form.columns)

unfoldable pub submit : Form → Form × Submitted
unfolding submit_checked
submit form = submit_checked form (parse_name form.new_table_name)

-- `onSuccess`, with a fresh identifier, and `onError`
unfoldable pub settled : Text → Text → Option Text → Form → Form × List Effect
unfolding initial
settled db id none form =
    (initial id, toast_success (text "Table created") ∷ invalidate (text "tables" ∷ db ∷ []) ∷ [])
settled db id (some e) form = (form, toast_error e ∷ [])
