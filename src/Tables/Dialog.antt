-- ===== src/Tables/Dialog.antt =====
-- backend/ui/src/routes/DatabaseDetail.tsx: the dialog around the form that creates a table, as a
-- step relation.
pub mod Sent
use pgmanager.Common.{◌≡◌, Bool, true, false, Option, none, some, List, [], ◌∷◌, Text}
use pgmanager.Ui.{Effect}
use pgmanager.Tables.{Form, initial, NewColumn, Submitted, bad_name, toast, create, submit, settled}
use pgmanager.Tables.Drafts.{Edit, edit, IsOfferedBy}

-- `sent` are the calls of the mutation, the latest first.
pub record Dialog : Type 0 where
  pub form : Form
  pub is_pending : Bool
  pub sent : List (Text × List NewColumn)

unfoldable pub mounted : Text → Dialog
unfolding initial
mounted id = record { form = initial id; is_pending = false; sent = [] }

-- What a submission comes to.
unfoldable pub send : Form × Submitted → Dialog → Dialog
send (f, create name columns) s = record s {
  form = f;
  is_pending = true;
  sent = (name, columns) ∷ s.sent;
}
send (f, bad_name e) s = record s { form = f }
send (f, toast e) s = record s { form = f }

unfoldable pub set_open : Bool → Form → Form
set_open b f = record f { create_open = b }

-- The input for the name also takes its error back.
unfoldable pub set_name : Text → Form → Form
set_name name f = record f { new_table_name = name; table_name_error = none }

-- The inputs and buttons of the dialog are there while it is open; the button "Create Table" is
-- disabled while a mutation runs. `db` is the database of the page.
pub data Step (db : Text) : Dialog → Dialog → Type 0 where
  opens : (s : Dialog) → Step db s (record s { form = set_open true s.form })
  closes : (s : Dialog) → Step db s (record s { form = set_open false s.form })
  names :
      (s : Dialog) (name : Text)
      → s.form.create_open ≡ true
      → Step db s (record s { form = set_name name s.form })
  edits :
      (s : Dialog) (e : Edit)
      → s.form.create_open ≡ true
      → IsOfferedBy e s.form.columns
      → Step db s (record s { form = record s.form { columns = edit e s.form.columns } })
  submits :
      (s : Dialog)
      → s.form.create_open ≡ true
      → s.is_pending ≡ false
      → Step db s (send (submit s.form) s)
  answered :
      (s : Dialog) (id : Text) (r : Option Text)
      → s.is_pending ≡ true
      → Step db s (record s { form = (settled db id r s.form).0; is_pending = false })

-- What can be reached from the page as it is mounted.
pub data Reach (db : Text) : Dialog → Type 0 where
  start : (id : Text) → Reach db (mounted id)
  after : (s s' : Dialog) → Reach db s → Step db s s' → Reach db s'
