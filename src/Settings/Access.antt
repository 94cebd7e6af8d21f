-- ===== src/Settings/Access.antt =====
-- backend/ui/src/routes/Settings.tsx, "PgBouncer Database Access": the list with its switches, which
-- show a change before the server has made it.
pub mod Settled
pub mod Rows
use pgmanager.Common.{
  ◌≡◌, Bool, true, false, not, Option, none, some, List, [], ◌∷◌, map, Text, text_eq, is_nil,
  if◌then◌else◌,
}

pub record PgbouncerDatabase : Type 0 where
  pub database_name : Text
  pub allowed : Bool
  pub created_at : Option Text
  pub updated_at : Option Text

-- What the mutation is called with.
pub record Toggle : Type 0 where
  pub database_name : Text
  pub allowed : Bool

-- The list with the change made to it.
unfoldable pub toggled : Toggle → List PgbouncerDatabase → List PgbouncerDatabase
toggled v dbs =
    map
      (λ db.
        if text_eq db.database_name v.database_name then record db { allowed = v.allowed } else db)
      dbs

-- `setQueryData` with a function of the old data, which there may be none of
unfoldable pub update_data :
    Toggle → Option (List PgbouncerDatabase) → Option (List PgbouncerDatabase)
unfolding toggled
update_data v none = none
update_data v (some dbs) = some (toggled v dbs)

-- The query: idle, asked of the server, or answered by it with a list that is not received yet.
pub data Fetch : Type 0 where
  idle asked : Fetch
  read : List PgbouncerDatabase → Fetch

-- `cache` is the data of the query "pgbouncer-databases", `is_error` whether its last answer was an
-- error.
pub record Query : Type 0 where
  pub cache : Option (List PgbouncerDatabase)
  pub fetch : Fetch
  pub is_error : Bool

-- `onMutate`: the query, and the context that it returns.
unfoldable pub on_mutate : Toggle → Query → Query × Option (List PgbouncerDatabase)
on_mutate v q = (record q { cache = update_data v q.cache; fetch = idle }, q.cache)

-- `onError`, with the context
unfoldable pub on_error : Option (List PgbouncerDatabase) → Query → Query
on_error none q = q
on_error (some previous) q = record q { cache = some previous }

-- `onSettled`: a fetch that is under way is given up for a new one.
unfoldable pub on_settled : Query → Query
on_settled q = record q { fetch = asked }

-- A request that is under way: what it changes, its context, and whether the server has done it.
pub record Pending : Type 0 where
  pub toggle : Toggle
  pub previous : Option (List PgbouncerDatabase)
  pub is_done : Bool

pub record State : Type 0 where
  pub server : List PgbouncerDatabase
  pub query : Query
  pub pending : Option Pending

-- The page when it is opened.
unfoldable pub opened : List PgbouncerDatabase → State
opened dbs = record {
  server = dbs;
  query = record { cache = none; fetch = asked; is_error = false };
  pending = none;
}

-- What can happen. The switches are disabled while a request is under way; a click may name any
-- database. The server may make a change and its answer be lost, and fetches may start and fail at
-- any time.
pub data Step : State → State → Type 0 where
  click :
      (s : State) (v : Toggle)
      → s.pending ≡ none
      → Step s (record s {
        query = (on_mutate v s.query).0;
        pending = some (record { toggle = v; previous = (on_mutate v s.query).1; is_done = false });
      })
  done :
      (s : State) (p : Pending)
      → s.pending ≡ some p
      → p.is_done ≡ false
      → Step s (record s {
        server = toggled p.toggle s.server;
        pending = some (record p { is_done = true });
      })
  succeeded :
      (s : State) (p : Pending)
      → s.pending ≡ some p
      → p.is_done ≡ true
      → Step s (record s { query = on_settled s.query; pending = none })
  failed :
      (s : State) (p : Pending)
      → s.pending ≡ some p
      → Step s (record s { query = on_settled (on_error p.previous s.query); pending = none })
  ask : (s : State) → Step s (record s { query = on_settled s.query })
  answer :
      (s : State)
      → s.query.fetch ≡ asked
      → Step s (record s { query = record s.query { fetch = read s.server } })
  receive :
      (s : State) (dbs : List PgbouncerDatabase)
      → s.query.fetch ≡ read dbs
      → Step s (record s { query = record { cache = some dbs; fetch = idle; is_error = false } })
  fetch_failed :
      (s : State) → Step s (record s { query = record s.query { fetch = idle; is_error = true } })

-- The states that can follow.
pub data Reach : State → State → Type 0 where
  here : (s : State) → Reach s s
  later : (s t u : State) → Reach s t → Step t u → Reach s u
