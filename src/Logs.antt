-- ===== src/Logs.antt =====
-- backend/ui/src/routes/Logs.tsx: the filters, the pages, and the cell of a detail. The arithmetic of
-- the pages is that of `Pager`, with 50 entries a page.
pub mod Range
pub mod Listing
use pgmanager.Common.{
  run, ℕ, Bool, true, false, not, Option, none, some, List, [], ◌∷◌, Text, text, is_empty, length,
  ltb, if◌then◌else◌,
}
use pgmanager.Pager
use pgmanager.Pager.{Click, offset, click}

pub record Filters : Type 0 where
  pub username : Text
  pub action : Text
  pub database : Text

pub record Page : Type 0 where
  pub page : ℕ
  pub filters : Filters

abbrev pub limit : ℕ
limit = 50

unfoldable pub opened : Page
opened = record { page = 0; filters = record { username = []; action = []; database = [] } }

-- An empty filter is not sent.
given : Text → Option Text
given s = if is_empty s then none else some s

pub record Params : Type 0 where
  pub limit : ℕ
  pub offset : ℕ
  pub username : Option Text
  pub action : Option Text
  pub database : Option Text

-- What `fetchLogs` is called with.
unfoldable pub params : Page → Params
unfolding given
params s = record {
  limit = limit;
  offset = offset limit s.page;
  username = given s.filters.username;
  action = given s.filters.action;
  database = given s.filters.database;
}

-- A click on a button, with data that are loaded or while they are not.
pub data Event : Type 0 where
  set_username set_action set_database : Text → Event
  turn : Bool → Click → Event

-- `count` is the number of entries that the server has for the filters.
module _ (count : Filters → ℕ) where
  total : Bool → Page → Option ℕ
  total false s = none
  total true s = some (count s.filters)

  unfoldable pub step : Event → Page → Page
  unfolding total
  step (set_username t) s = record { page = 0; filters = record s.filters { username = t } }
  step (set_action t) s = record { page = 0; filters = record s.filters { action = t } }
  step (set_database t) s = record { page = 0; filters = record s.filters { database = t } }
  step (turn is_loaded c) s = record s { page = click limit (total is_loaded s) c s.page }

  unfoldable pub steps : List Event → Page → Page
  unfolding step
  steps es s = run step es s

-- What the cell of a detail is.
pub data Cell : Type 0 where
  dash : Cell
  inline : Text → Cell
  button : Text → Cell

-- `LogDetail`, of the detail as `JSON.stringify` or `String` writes it, on one line and on several;
-- `none` is a detail that is falsy.
unfoldable pub log_detail : Option (Text × Text) → Cell
log_detail none = dash
log_detail (some (raw, pretty)) = if not (ltb 40 (length raw)) then inline raw else button pretty
