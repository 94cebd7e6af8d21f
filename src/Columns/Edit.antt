-- ===== src/Columns/Edit.antt =====
-- backend/ui/src/components/dialogs/EditColumnDialog.tsx: the form, and the statements that the
-- dialog sends one after the other. What the server does with a statement is a parameter.
pub mod Script
pub mod Run
use pgmanager.Common.{
  ◌≡◌, refl, Bool, true, false, not, ◌&&◌, ◌||◌, Option, none, some, List, [], ◌∷◌, ◌++◌, Text,
  text, text_eq, is_empty, show_integer, Integer, if◌then◌else◌, or_else, is_some,
}
use pgmanager.Schemas.{ColumnInfo}
use pgmanager.PgTypes.{
  PostgresTypeItem, TypeParams, ParsedType, postgresql_types, plain, build_type_string,
  parse_type_params,
}
use pgmanager.Sql.{quote_ident}
use pgmanager.Ui.{Effect, toast_success, toast_error, close, invalidate, optional_int}

-- The state of the seven `useState` calls.
pub record Form : Type 0 where
  pub new_name : Text
  pub new_type : Text
  pub new_length : Text
  pub new_precision : Text
  pub new_scale : Text
  pub new_nullable : Bool
  pub new_default : Text

-- `x !== undefined ? String(x) : ""`
abbrev shown : Option Integer → Text
shown none = []
shown (some n) = show_integer n

abbrev parsed_type : Option ColumnInfo → ParsedType
parsed_type none = plain (text "TEXT")
parsed_type (some c) = parse_type_params c.type

abbrev column_name : Option ColumnInfo → Text
column_name none = []
column_name (some c) = c.name

abbrev column_nullable : Option ColumnInfo → Bool
column_nullable none = true
column_nullable (some c) = c.nullable

abbrev column_default : Option ColumnInfo → Text
column_default none = []
column_default (some c) = or_else c.default []

-- The initial values of the state. React uses them when the component mounts, and not again when
-- the property `column` changes.
unfoldable pub mount : Option ColumnInfo → Form
mount column =
    let parsed = parsed_type column in
    record {
      new_name = column_name column;
      new_type = parsed.base;
      new_length = shown parsed.length;
      new_precision = shown parsed.precision;
      new_scale = shown parsed.scale;
      new_nullable = column_nullable column;
      new_default = column_default column;
    }

-- What the inputs of the dialog set.
pub data Input : Type 0 where
  name type length precision scale default : Text → Input
  nullable : Bool → Input

unfoldable pub change : Input → Form → Form
change (name v) form = record form { new_name = v }
change (type v) form = record form { new_type = v }
change (length v) form = record form { new_length = v }
change (precision v) form = record form { new_precision = v }
change (scale v) form = record form { new_scale = v }
change (default v) form = record form { new_default = v }
change (nullable v) form = record form { new_nullable = v }

unfoldable pub type_string : Form → Text
type_string form = build_type_string form.new_type (record {
  length = optional_int form.new_length;
  precision = optional_int form.new_precision;
  scale = optional_int form.new_scale;
})

-- `ALTER TABLE "t" ` and what follows it
unfoldable pub alter_table : Text → Text → Text
alter_table table action = text "ALTER TABLE " ++ (quote_ident table ++ (text " " ++ action))

unfoldable pub rename_stmt : Text → Text → Text → Text
unfolding alter_table
rename_stmt table old new =
    alter_table table
      (text "RENAME COLUMN " ++ (quote_ident old ++ (text " TO " ++ quote_ident new)))

-- `ALTER TABLE "t" ALTER COLUMN "c" ` and what follows it
unfoldable pub alter_column : Text → Text → Text → Text
unfolding alter_table
alter_column table column action =
    alter_table table (text "ALTER COLUMN " ++ (quote_ident column ++ (text " " ++ action)))

abbrev when : Bool → Text → List Text
when b s = if b then s ∷ [] else []

nullable_stmts : Text → ColumnInfo → Form → List Text
nullable_stmts table column form =
    if form.new_nullable && not column.nullable
    then alter_column table form.new_name (text "DROP NOT NULL") ∷ []
    else when (not form.new_nullable && column.nullable)
        (alter_column table form.new_name (text "SET NOT NULL"))

default_stmts : Text → ColumnInfo → Form → List Text
default_stmts table column form =
    if text_eq form.new_default (or_else column.default [])
    then []
    else if is_empty form.new_default
    then alter_column table form.new_name (text "DROP DEFAULT") ∷ []
    else alter_column table form.new_name (text "SET DEFAULT " ++ form.new_default) ∷ []

-- The statements that `mutationFn` collects for a column.
unfoldable pub statements : Text → ColumnInfo → Form → List Text
unfolding nullable_stmts default_stmts
statements table column form =
    when (not (text_eq form.new_name column.name)) (rename_stmt table column.name form.new_name)
    ++ (when (not (text_eq (type_string form) column.type))
          (alter_column table form.new_name (text "TYPE " ++ type_string form))
        ++ (nullable_stmts table column form ++ default_stmts table column form))

-- How a call of `executeQuery` ends: it throws, or it answers with `result.error`.
pub data Reply : Type 0 where
  threw : Text → Reply
  answered : Option Text → Reply

-- The message of the error that leaves the loop body, if one does; an empty `error` is falsy.
abbrev pub failure : Reply → Option Text
failure (threw e) = some e
failure (answered none) = none
failure (answered (some e)) = if is_empty e then none else some e

module _ {S : Type 0} (execute : Text → S → S × Reply) where
  -- The loop over `stmts`: the state of the server behind it, and the error that stopped it.
  pub run : List Text → S → S × Option Text
  run [] s = (s, none)
  run (stmt ∷ stmts) s =
      let (s', reply) = execute stmt s in
      elim (failure reply) [ none ↦ run stmts s' | some e ↦ (s', some e) ]

  run_column : Text → Form → Option ColumnInfo → S → S × Option Text
  unfolding run
  run_column table form none s = (s, none)
  run_column table form (some column) s = run (statements table column form) s

  -- `onSuccess` and `onError`
  settled : Text → Text → Option Text → List Effect
  settled db table none =
      toast_success (text "Column updated")
      ∷ close
      ∷ invalidate (text "columns" ∷ db ∷ table ∷ [])
      ∷ []
  settled db table (some e) = toast_error e ∷ []

  -- A click on "Save Changes".
  pub save : Text → Text → Option ColumnInfo → Form → S → S × List Effect
  unfolding run_column settled
  save db table column form s =
      let (s', error) = run_column table form column s in (s', settled db table error)

-- Whether "Save Changes" can be clicked.
unfoldable pub can_save : Form → Bool → Bool
can_save form is_pending = not (is_empty form.new_name || is_pending)
