-- ===== src/Lib.antt =====
-- pgmanager: the logic of its web interface, backend/ui/src.
--
-- The interface is a React application in front of a Go server. Its pages are components with local
-- state; a dialog collects input, builds a request or SQL statements, and reacts to the answer; the
-- modules of backend/ui/src/api turn calls into HTTP requests. A component's state is here a record
-- with the source's `useState` values, its handlers are functions on that record, what a user can do
-- is a data type of events with a step function, and what a mutation sends or throws is a value. A
-- toast, the closing of a dialog and the invalidation of a query are values of `Ui.Effect`.
--
-- Which file models what (all paths below backend/ui/src):
--   Schemas             lib/schemas.ts: the types of the data; Schemas.Answers: the schemas of the
--                       answers; Meaning, Results and Audit: what the answers stand for
--   Schemas.Zod         the package zod, an interface; Model: functions that behave like it
--   Names               the checks of names in lib/schemas.ts
--   PgTypes             lib/pg-types.ts: buildTypeString, parseTypeParams, getTypeCategory
--   TypeForm            the type inputs that three forms repeat; Groups: the list of types in them
--   Sql                 quoteIdent of components/dialogs/EditColumnDialog.tsx
--   Columns.Add, Edit   components/dialogs/AddColumnDialog.tsx and EditColumnDialog.tsx
--   Columns.Structure   components/tabs/StructureTab.tsx, which mounts the edit dialog
--   Tables              routes/DatabaseDetail.tsx: the form that creates a table, Dialog, and the page
--   Rows                lib/parseValue.ts; Rows.Where: buildRowWhere of components/tabs/DataTab.tsx;
--                       Rows.Edit, Insert: components/dialogs/EditRowDialog.tsx, InsertRowDialog.tsx;
--                       Rows.Detail: routes/TableDetail.tsx with DataTab and DeleteRowConfirm;
--                       Rows.Grid: the table of DataTab
--   Pager               the paging of DataTab and of routes/Logs.tsx
--   Console, Csv        components/SqlConsole.tsx; Completion: its schema; Panel: what it shows;
--                       Answers: its responses; Csv: exportCsv
--   Auth                contexts/AuthContext.tsx, the routes of routes/AuthenticatedLayout.tsx and
--                       routes/AppLayout.tsx, the menus of components/layout; Auth.Shell: which entry
--                       is marked, and the menu of a mobile device
--   Selection           components/IpInput.tsx, DbMultiSelect.tsx, backup/BackupTablesTab.tsx
--   Restore             components/backup/RestoreTab.tsx
--   Confirm             components/dialogs/ConfirmDeleteDialog.tsx, for the pages that use it
--   Databases           components/DatabasesTable.tsx, components/dialogs/CreateDatabaseDialog.tsx
--   Users.Panel         routes/Users.tsx; Users.Editor: what the two dialogs for editing share;
--                       Users.CreateAuth, EditAuth, CreatePostgres, EditPostgres, Reset,
--                       ResetAuth: the dialogs; Users.Table: components/AuthUsersTable.tsx and
--                       PostgresUsersTable.tsx; Users.Credentials: dialogs/CredentialsDialog.tsx
--   Settings            routes/Settings.tsx: Access (the switches), Pool, Retention, Ssl;
--                       Ssl.Actions: the mutations on the certificates and
--                       the query of their status
--   Account             routes/Login.tsx, Setup.tsx and Profile.tsx, with the requests behind them
--   Backups             routes/Backups.tsx, components/backup/BackupDatabaseTab.tsx, answer by answer;
--                       Backups.Tables: components/backup/BackupTablesTab.tsx
--   Logs                routes/Logs.tsx
--   TypeInput           components/TypeAwareInput.tsx
--   Api                 api/*.ts: the requests, the mapping of responses and errors, the paths;
--                       Api.Answers: what the functions that fetch return
-- Common holds the shared names: lists and numbers over the native naturals, texts and decimals.
-- Dict is the object that is used as a map from names to values. Tests applies the theorems.
--
-- A string is the list of its UTF-16 units; case conversion and blanks are those of ASCII, which is
-- what the source's strings of types and identifiers hold. Numbers of JavaScript, `Number` and
-- `String` are the parameter `Rows.Numbers`; the lengths and digits in a type string are integers
-- up to 2^53 - 1, above which JavaScript writes and reads numbers in another way; the package zod
-- is the parameter `Schemas.Zod.Zod`, over JSON whose numbers are integers; `encodeURIComponent`,
-- `URLSearchParams`, the formatter of SQL, the names that every object inherits, the length of a
-- text in UTF-8 and the execution of a statement by the server are parameters, as are the server
-- behind the forms of the account (a record of operations) and the contents of backups. Every
-- function is total by structural recursion; the only fuel is that of `Auth.follow`, the number of
-- redirections, of which a loaded session needs one, since no route redirects to another
-- redirection.
--
-- Not modelled: elements and styles, the wrappers of a package of controls in components/ui, timers,
-- and files offered for download, which have no logic of their own; of the query library only what a
-- page's state depends on (one list in Settings.Access, the status in Settings.Ssl.Actions); the texts
-- of dates and sizes, which the browser's floating point and language decide; the server in Go, which
-- the interface knows by its answers only; the scripts and the tests.
mod Common
pub mod Schemas
pub mod Ui
pub mod PgTypes
pub mod Sql
pub mod Names
pub mod TypeForm
pub mod Columns
pub mod Tables
pub mod Dict
pub mod Pager
pub mod Rows
pub mod Auth
pub mod Api
pub mod Csv
pub mod Console
pub mod Confirm
pub mod Databases
pub mod Users
pub mod Settings
pub mod Account
pub mod Backups
pub mod Logs
pub mod TypeInput
pub mod Selection
pub mod Restore
mod Tests
