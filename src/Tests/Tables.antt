-- ===== src/Tests/Tables.antt =====
-- The form that creates a table.
use pgmanager.Common.{All, refl, true, none, List, [], ◌∷◌, text, trim, arith}
use pgmanager.Tables.{Form, ColumnDraft, serial_column_draft, valid_columns, submit}
use pgmanager.Tables.Dialog
use pgmanager.Tables.Dialog.{
  Dialog, mounted, set_open, send, Reach, start, after, opens, names, submits,
}
use pgmanager.Tables.Dialog.Sent.{IsTable, Reach-IsTable}
use pgmanager.Tables.Drafts.{IsValid}
use pgmanager.Tables.Request.{Accepted, submit-Accepted}
use pgmanager.Names.Identifier.{IsIdentifier}

abbrev drafts : List ColumnDraft
drafts = serial_column_draft (text "a") ∷ []

abbrev form : Form
form = record {
  create_open = true;
  new_table_name = text " users";
  table_name_error = none;
  columns = drafts;
}

users-IsIdentifier : IsIdentifier (trim (text " users"))
unfolding text trim
users-IsIdentifier = ground arith

submit-Accepted_example :
    Accepted form (trim form.new_table_name) (valid_columns form.columns) (submit form)
submit-Accepted_example = submit-Accepted form users-IsIdentifier

-- The dialog is opened and sends the table that it shows at first.
abbrev opened : Dialog
opened = record (mounted (text "a")) { form = set_open true (mounted (text "a")).form }

opened-Reach : Reach (text "shop") opened
opened-Reach = after (mounted (text "a")) opened (start (text "a")) (opens (mounted (text "a")))

abbrev named : Dialog
named = record opened { form = Dialog.set_name (text "users") opened.form }

named-Reach : Reach (text "shop") named
unfolding set_open
named-Reach = after opened named opened-Reach (names opened (text "users") refl)

sent-Reach : Reach (text "shop") (send (submit named.form) named)
unfolding set_open Dialog.set_name mounted
sent-Reach = after named _ named-Reach (submits named refl refl)

Reach-IsTable_example :
    IsValid (send (submit named.form) named).form.columns
    × All IsTable (send (submit named.form) named).sent
Reach-IsTable_example = Reach-IsTable (text "shop") (send (submit named.form) named) sent-Reach
