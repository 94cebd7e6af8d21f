-- ===== src/Databases.antt =====
-- backend/ui/src/components/DatabasesTable.tsx and components/dialogs/CreateDatabaseDialog.tsx: the
-- list of databases with its search, the creation of a database, and its deletion.
pub mod Deletion
pub mod Listing
use pgmanager.Common.{
  run, Bool, true, false, not, ◌&&◌, Option, none, some, List, [], ◌∷◌, Text, text, text_includes,
  to_lower, filter_by, if◌then◌else◌,
}
use pgmanager.Schemas.{Database}
use pgmanager.Ui.{Effect, toast_success, toast_error, close, invalidate}
use pgmanager.Names.{Checked, ok, bad, parse_name, message}
use pgmanager.Api.{Request, Fields}
use pgmanager.Api.Databases.{fetch_databases}
use pgmanager.Confirm
use pgmanager.Confirm.{Page, handle_close}

-- The state of CreateDatabaseDialog.
pub record Form : Type 0 where
  pub name : Text
  pub error : Option Text

unfoldable pub initial : Form
initial = record { name = []; error = none }

-- `onChange` of the input
unfoldable pub set_name : Text → Form → Form
set_name v form = record { name = v; error = none }

submit_checked : Form → Checked → Form × Option Text
submit_checked form (bad e) = (record form { error = some (message (text "name") e) }, none)
submit_checked form (ok name) = (record form { error = none }, some name)

-- `handleSubmit`: the form, and the name that `createDatabase` is called with.
unfoldable pub submit : Form → Form × Option Text
unfolding submit_checked
submit form = submit_checked form (parse_name form.name)

-- `onSuccess` and `onError`
unfoldable pub settled : Option Text → Form → Form × List Effect
unfolding initial
settled none form = (
  initial,
  toast_success (text "Database created") ∷ close ∷ invalidate (text "databases" ∷ []) ∷ [],
)
settled (some e) form = (form, toast_error e ∷ [])

-- The page besides the confirmation: `fetchDatabases` is asked for system databases or not.
pub record View : Type 0 where
  pub show_system : Bool
  pub create_open : Bool
  pub search_query : Text

unfoldable pub opened_view : View
opened_view = record { show_system = false; create_open = false; search_query = [] }

pub data Control : Type 0 where
  toggle_system open_create close_create : Control
  search : Text → Control

-- The button for creating is there for an admin.
unfoldable pub use_control : Bool → Control → View → View
use_control is_admin toggle_system v = record v { show_system = not v.show_system }
use_control is_admin open_create v = if is_admin then record v { create_open = true } else v
use_control is_admin close_create v = record v { create_open = false }
use_control is_admin (search t) v = record v { search_query = t }

-- `queryFn` of the list of databases
unfoldable pub list_request : View → Request Fields
list_request v = fetch_databases v.show_system

-- The rows that are shown for a search.
unfoldable pub filtered_databases : List Database → Text → List Database
filtered_databases databases search_query =
    filter_by (λ db. text_includes (to_lower db.name) (to_lower search_query)) databases

-- The bin of a row: `Some` of the name if it can be clicked.
unfoldable pub click_bin : Bool → Database → Option Text
click_bin is_admin db = if is_admin && not db.protected then some db.name else none

-- `onSuccess` and `onError` of `deleteMutation`: both take the target away, and with it the dialog.
unfoldable pub on_answer : Page Text → Page Text
on_answer s = record s { target = none; is_pending = false }

-- A click on the bin of a row, or an event of the dialog.
pub data Event : Type 0 where
  bin : Database → Event
  dialog : Confirm.Event Text → Event

clicked : Option Text → Page Text → Page Text
clicked none s = s
clicked (some name) s = Confirm.step Text on_answer (Confirm.ask name) s

not_ask : Confirm.Event Text → Page Text → Page Text
not_ask (Confirm.ask name) s = s
not_ask e s = Confirm.step Text on_answer e s

unfoldable pub step : Bool → Event → Page Text → Page Text
unfolding clicked click_bin not_ask
step is_admin (bin db) s = clicked (click_bin is_admin db) s
step is_admin (dialog e) s = not_ask e s

unfoldable pub steps : Bool → List Event → Page Text → Page Text
unfolding step
steps is_admin es s = run (step is_admin) es s
