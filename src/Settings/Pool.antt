-- ===== src/Settings/Pool.antt =====
-- backend/ui/src/routes/Settings.tsx, "Connection Pool": the form with the configuration that is
-- loaded.
pub mod Sizes
pub mod Shown
use pgmanager.Common.{
  run, ℕ, Bool, true, false, not, ◌&&◌, ◌||◌, Integer, pos, Option, none, some, List, [], ◌∷◌, Text,
  text, text_eq, if◌then◌else◌,
}
use pgmanager.Api.{Request, Fields}
use pgmanager.Api.Databases.{PgbouncerConfig, update_pgbouncer_config}
use pgmanager.Settings.{int_or, int_eq}

pub record Form : Type 0 where
  pub config : Option PgbouncerConfig
  pub local_config : PgbouncerConfig
  pub is_pending : Bool

unfoldable pub opened : Form
opened = record {
  config = none;
  local_config = record {
    pool_mode = text "transaction";
    default_pool_size = pos 20;
    max_client_conn = pos 100;
  };
  is_pending = false;
}

-- The effect, when the data of the query are another object.
unfoldable pub loaded : PgbouncerConfig → Form → Form
loaded c s = record s { config = some c; local_config = c }

unfoldable pub differ : PgbouncerConfig → PgbouncerConfig → Bool
differ a b =
    not (text_eq a.pool_mode b.pool_mode)
    || (not (int_eq a.default_pool_size b.default_pool_size)
        || not (int_eq a.max_client_conn b.max_client_conn))

-- New data of the query: if they say what it has already, it keeps its object, and the effect does
-- not run.
arrived : Option PgbouncerConfig → PgbouncerConfig → Form → Form
arrived none c s = loaded c s
arrived (some old) c s = if differ old c then loaded c s else s

changes : PgbouncerConfig → Option PgbouncerConfig → Bool
changes a none = false
changes a (some c) = differ a c

-- `hasChanges`
unfoldable pub has_changes : Form → Bool
unfolding differ changes
has_changes s = changes s.local_config s.config

-- The button "Save": what the mutation is called with.
unfoldable pub click_save : Form → Option PgbouncerConfig
click_save s = if has_changes s && not s.is_pending then some s.local_config else none

-- `mutationFn`
unfoldable pub request : PgbouncerConfig → Request Fields
request c = update_pgbouncer_config c

pub data Event : Type 0 where
  load : PgbouncerConfig → Event
  set_mode set_default_pool_size set_max_client_conn : Text → Event
  save : Event
  -- the server's answer: the configuration that it has then
  saved : PgbouncerConfig → Event
  refused : Event

saving : Option PgbouncerConfig → Form → Form
saving none s = s
saving (some c) s = record s { is_pending = true }

unfoldable pub step : Event → Form → Form
unfolding arrived saving click_save
step (load c) s = arrived s.config c s
step (set_mode m) s = record s { local_config = record s.local_config { pool_mode = m } }
step (set_default_pool_size t) s = record s {
  local_config = record s.local_config { default_pool_size = int_or t 20 };
}
step (set_max_client_conn t) s = record s {
  local_config = record s.local_config { max_client_conn = int_or t 100 };
}
step save s = saving (click_save s) s
step (saved c) s = arrived s.config c (record s { is_pending = false })
step refused s = record s { is_pending = false }

unfoldable pub steps : List Event → Form → Form
unfolding step
steps es s = run step es s
