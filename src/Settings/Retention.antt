-- ===== src/Settings/Retention.antt =====
-- backend/ui/src/routes/Settings.tsx, "Log Retention". The setting is a text on the server, written
-- in decimal.
pub mod Reloaded
use pgmanager.Common.{
  run, Bool, true, false, not, ◌||◌, Integer, pos, Option, none, some, List, [], ◌∷◌, Text, text,
  show_integer, is_some, if◌then◌else◌,
}
use pgmanager.Api.{Request, Fields}
use pgmanager.Api.Server.{update_settings}
use pgmanager.Settings.{int_or, int_eq}

-- `pending` are the days of the save that is under way.
pub record Form : Type 0 where
  pub retention_days : Integer
  pub original_retention_days : Integer
  pub pending : Option Integer

unfoldable pub opened : Form
opened = record { retention_days = pos 90; original_retention_days = pos 90; pending = none }

-- The effect, for the value of `audit_log_retention_days`, if the settings have one.
unfoldable pub loaded : Option Text → Form → Form
loaded none s = s
loaded (some t) s =
    let val = int_or t 0 in record s { retention_days = val; original_retention_days = val }

-- The button "Save": the days that the mutation is called with.
unfoldable pub click_save : Form → Option Integer
click_save s =
    if int_eq s.retention_days s.original_retention_days || is_some s.pending
    then none
    else some s.retention_days

-- The value that `mutationFn` sends: `days.toString()`
unfoldable pub stored : Integer → Text
stored days = show_integer days

unfoldable pub request : Integer → Request Fields
unfolding stored
request days = update_settings (text "audit_log_retention_days") (stored days)

-- `load` is said of settings that are another object than those before, for which the effect runs.
pub data Event : Type 0 where
  load : Option Text → Event
  typed : Text → Event
  save saved refused : Event

saving : Option Integer → Form → Form
saving none s = s
saving (some days) s = record s { pending = some days }

-- `onSuccess` sets the days that the form has then.
unfoldable pub step : Event → Form → Form
unfolding loaded click_save saving
step (load t) s = loaded t s
step (typed t) s = record s { retention_days = int_or t 0 }
step save s = saving (click_save s) s
step saved s = record s { original_retention_days = s.retention_days; pending = none }
step refused s = record s { pending = none }

unfoldable pub steps : List Event → Form → Form
unfolding step
steps es s = run step es s
