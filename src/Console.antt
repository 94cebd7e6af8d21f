-- ===== src/Console.antt =====
-- backend/ui/src/components/SqlConsole.tsx: its state, the query mutation's handlers, formatting and
-- the keys. `executeQuery` is what the answers stand for; `format` of the package sql-formatter, which
-- may throw, is a parameter. A handler of the mutation runs with the `sql` of the latest rendering.
pub mod History
pub mod Completion
pub mod Panel
pub mod Answers
use pgmanager.Common.{
  run, ℕ, Integer, Bool, true, false, not, ◌&&◌, ◌||◌, Option, none, some, List, [], ◌∷◌, ◌++◌,
  Text, text, text_eq, is_empty, trim, take, if◌then◌else◌,
}
use pgmanager.Schemas.{QueryResult}
use pgmanager.Ui.{Effect, toast_error}

-- `QueryHistoryEntry`, with `timestamp` as the clock gives it.
pub record Entry : Type 0 where
  pub sql : Text
  pub duration : Integer
  pub row_count : Integer
  pub timestamp : ℕ
  pub error : Option Text

module _ (N : Type 0) where
  -- The state of the component; `sent` are the queries given to the mutation, the latest first.
  pub record Console : Type 0 where
    pub sql : Text
    pub result : Option (QueryResult N)
    pub history : List Entry
    pub show_history : Bool
    pub sent : List Text

  unfoldable pub initial : Console
  initial = record { sql = []; result = none; history = []; show_history = false; sent = [] }

  pub record Key : Type 0 where
    pub meta : Bool
    pub ctrl : Bool
    pub shift : Bool
    pub key : Text

  pub data Event : Type 0 where
    typed : Text → Event
    execute format_click toggle_history clear_history : Event
    key_down : Key → Event
    answered : QueryResult N → ℕ → Event
    failed : Text → Event
    history_click : Entry → Event

  unfoldable pub handle_execute : Console → Console
  handle_execute s = if is_empty (trim s.sql) then s else record s { sent = trim s.sql ∷ s.sent }

  -- The entry that an answer adds to the history.
  abbrev pub entry_of : Text → QueryResult N → ℕ → Entry
  entry_of sql answer now = record {
    sql = sql;
    duration = answer.duration;
    row_count = answer.row_count;
    timestamp = now;
    error = answer.error;
  }

  unfoldable pub on_success : QueryResult N → ℕ → Console → Console
  on_success answer now s = record s {
    result = some answer;
    history = entry_of s.sql answer now ∷ take 49 s.history;
  }

  -- `if (answer.error) toast.error(answer.error)`
  unfoldable pub success_effects : QueryResult N → List Effect
  success_effects answer = elim answer.error [
    | none ↦ []
    | some e ↦ if is_empty e then [] else toast_error e ∷ []
  ]

  -- Whether the button that exports the result is shown.
  unfoldable pub can_export : Console → Bool
  can_export s = elim s.result [
    | none ↦ false
    | some r ↦ no_error r.error && not (no_columns r.columns)
  ]
    where
      no_error : Option Text → Bool
      no_error none = true
      no_error (some e) = is_empty e

      no_columns : List Text → Bool
      no_columns [] = true
      no_columns (c ∷ cs) = false

  -- What is done with the formatted text, or with an exception.
  abbrev pub formatted : Option Text → Console → Console
  formatted none s = s
  formatted (some sql) s = record s { sql = sql }

  module _ (format : Text → Option Text) where
    unfoldable pub handle_format : Console → Console
    handle_format s = formatted (format s.sql) s

    unfoldable pub format_effects : Console → List Effect
    format_effects s = elim (format s.sql) [
      | none ↦ toast_error (text "Failed to format SQL") ∷ []
      | some sql ↦ []
    ]

    -- The two tests on a key, one behind the other.
    unfoldable pub handle_key_down : Key → Console → Console
    unfolding handle_execute handle_format
    handle_key_down k s =
        let command = k.meta || k.ctrl in
        let s' = if command && text_eq k.key (text "Enter") then handle_execute s else s in
        if command && k.shift && text_eq k.key (text "f") then handle_format s' else s'

    -- The buttons for execution and formatting are disabled without a query.
    unfoldable pub step : Event → Console → Console
    unfolding handle_execute handle_format handle_key_down on_success
    step (typed s) c = record c { sql = s }
    step execute c = handle_execute c
    step format_click c = if is_empty (trim c.sql) then c else handle_format c
    step toggle_history c = record c { show_history = not c.show_history }
    step clear_history c = record c { history = [] }
    step (key_down k) c = handle_key_down k c
    step (answered answer now) c = on_success answer now c
    step (failed e) c = c
    step (history_click e) c = record c { sql = e.sql }

    unfoldable pub steps : List Event → Console → Console
    unfolding step
    steps es c = run step es c
