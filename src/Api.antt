-- ===== src/Api.antt =====
-- backend/ui/src/api/request.ts: the requests that the modules of backend/ui/src/api build, what
-- `request` makes of a response, and the URLs. `encodeURIComponent` is a parameter.
pub mod Failures
pub mod Segments
pub mod Auth
pub mod Databases
pub mod Users
pub mod Data
pub mod Params
pub mod Paths
pub mod Server
pub mod Answers
use pgmanager.Common.{
  Integer, ℕ, Bool, true, false, ◌&&◌, Option, none, some, List, [], ◌∷◌, ◌++◌, Text, text,
  show_nat, is_empty, leb, ltb, ◌==◌, if◌then◌else◌,
}

pub data Method : Type 0 where
  get post put delete : Method

-- A value in the JSON of a body.
pub data Json : Type 0 where
  string : Text → Json
  flag : Bool → Json
  number : Integer → Json
  strings : List Text → Json

-- A request of `request`; a field that is `undefined` is not in the body, and without a body there is
-- no list. `B` is what a body holds.
pub record Request (B : Type 0) : Type 0 where
  pub method : Method
  pub path : Text
  pub body : Option B

abbrev pub Fields : Type 0
Fields = List (Text × Json)

abbrev pub plain_get : {B : Type 0} → Text → Request B
plain_get path = record { method = get; path = path; body = none }

-- A field that is left out for `undefined`.
abbrev pub optional : Text → Option Json → Fields
optional key none = []
optional key (some v) = (key, v) ∷ []

-- `s || undefined`
abbrev pub non_empty : Text → Option Json
non_empty s = if is_empty s then none else some (string s)

-- `ApiError`; the status is 0 where none is given.
pub record ApiError : Type 0 where
  pub message : Text
  pub status : ℕ
  pub tables : Option (List Text)

-- What `fetch` gives: the status, and the JSON of the body, `none` if it is not JSON.
pub record Response (J : Type 0) : Type 0 where
  pub status : ℕ
  pub json : Option J

-- What the caller gets: data, `undefined`, an `ApiError`, or the error of `response.json()`.
pub data Answer (J : Type 0) : Type 0 where
  value : J → Answer J
  undefined bad_json : Answer J
  thrown : ApiError → Answer J

-- `response.ok`
abbrev pub is_ok : {J : Type 0} → Response J → Bool
is_ok r = leb 200 r.status && ltb r.status 300

-- `response.json()`
abbrev pub body_of : {J : Type 0} → Option J → Answer J
body_of none = bad_json
body_of (some j) = value j

-- `HTTP ${response.status}`
abbrev pub http : ℕ → Text
http status = text "HTTP " ++ show_nat status

-- The `ApiError` for the error that the body names, if it does.
abbrev pub named_error : ℕ → Option Text → ApiError
named_error status (some e) = record { message = e; status = status; tables = none }
named_error status none = record { message = http status; status = status; tables = none }

module _ {J : Type 0} (error_of : J → Option Text) where
  -- What `ErrorResponseSchema.safeParse(body)` finds; a body that is not JSON is `null`.
  unfoldable pub parsed_error : Option J → Option Text
  parsed_error none = none
  parsed_error (some j) = error_of j

  unfoldable pub failure : Response J → ApiError
  unfolding parsed_error
  failure r = named_error r.status (parsed_error r.json)

  unfoldable pub request : Response J → Answer J
  unfolding failure
  request r =
      if is_ok r
      then (if r.status == 204 then undefined else body_of r.json)
      else thrown (failure r)

-- The `error`, `message` and `tables` of a body that is an object, for api/backup.ts.
pub record BackupError : Type 0 where
  pub error : Text
  pub message : Option Text
  pub tables : Option (List Text)

abbrev or_text : Text → Text → Text
or_text s t = if is_empty s then t else s

abbrev or_empty : Option Text → Text
or_empty none = []
or_empty (some s) = s

abbrev pub restore_error_of : ℕ → Option BackupError → ApiError
restore_error_of status none = record { message = http status; status = status; tables = none }
restore_error_of status (some e) = record {
  message = or_text (or_empty e.message) (or_text e.error (http status));
  status = status;
  tables = e.tables;
}

module _ {J : Type 0} (error_of : J → Option BackupError) where
  abbrev pub backup_error : Option J → Option BackupError
  backup_error none = none
  backup_error (some j) = error_of j

  -- The error of `backupDatabase` and `inspectBackup`, without a status.
  unfoldable pub backup_failure : Response J → ApiError
  backup_failure r = elim (backup_error r.json) [
    | none ↦ record { message = http r.status; status = 0; tables = none }
    | some e ↦ record { message = or_text e.error (http r.status); status = 0; tables = none }
  ]

  -- The error of `restoreBackup`, with the status and the tables in conflict.
  unfoldable pub restore_failure : Response J → ApiError
  restore_failure r = restore_error_of r.status (backup_error r.json)

-- What a fetched body means to `backupDatabase`, `inspectBackup` and `restoreBackup`.
unfoldable pub backup_answer : {J : Type 0} → (Response J → ApiError) → Response J → Answer J
backup_answer error r = if is_ok r then body_of r.json else thrown (error r)
