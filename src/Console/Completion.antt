-- ===== src/Console/Completion.antt =====
-- backend/ui/src/components/SqlConsole.tsx: the names of tables and columns that the editor completes.
use pgmanager.Common.{
  ◌>>=◌, is_nil, ◌||◌, text, false, ◌≡◌, refl, ap, sym, Bool, is_some, not, Option, none, some,
  Option-cases, List, [], ◌∷◌, map, any, or_else, Text, text_eq_cases, text_eq_iff, if◌then◌else◌,
  inl, inr, arith,
}
use mathlib.Core.Option as Option
use pgmanager.Schemas.{ColumnInfo, TableInfo}
use pgmanager.Selection.{mem}
use pgmanager.Dict.{lookup, insert, insert_all, lookup-insert, lookup-insert_all_by}

abbrev pub column_names : List ColumnInfo → List Text
column_names columns = map (λ c. c.name) columns

-- `fetch_columns` is what the server returns for a table, `none` an error that it raises.
-- A table named __proto__, whose assignment sets the prototype of `result`, is left out of account.
module _ (fetch_columns : Text → Option (List ColumnInfo)) where
  -- The loop of the query "allColumns", which an error ends.
  unfoldable pub collect :
      List (Text × List Text) → List TableInfo → Option (List (Text × List Text))
  collect result [] = some result
  collect result (table ∷ tables) = do
    columns ← fetch_columns table.name
    collect (insert table.name (column_names columns) result) tables

  -- What the query brings for the tables that are listed; it is enabled when there are some.
  unfoldable pub all_columns : List TableInfo → Option (List (Text × List Text))
  unfolding collect
  all_columns tables = if is_nil tables then none else collect [] tables

-- What the editor is given as the columns of a table: names, or the property of that name that every
-- object inherits, such as `constructor`.
pub data Columns : Type 0 where
  listed : List Text → Columns
  inherited : Text → Columns

-- `is_inherited` tells the names of the properties of `Object.prototype`.
module _ (is_inherited : Text → Bool) where
  -- `tableColumns[name] || []`
  abbrev pub columns_at : Text → Option (List Text) → Columns
  columns_at name none = if is_inherited name then inherited name else listed []
  columns_at name (some columns) = listed columns

  -- `schema`, which is there when the tables and their columns are
  unfoldable pub schema :
      Option (List TableInfo) → Option (List (Text × List Text)) → Option (List (Text × Columns))
  schema none columns = none
  schema (some tables) none = none
  schema (some tables) (some columns) =
      some (insert_all [] (map (λ t. (t.name, columns_at t.name (lookup t.name columns))) tables))

module _ (fetch_columns : Text → Option (List ColumnInfo)) where
  -- The columns that the server returned for a table.
  abbrev pub columns_of : Text → List Text
  columns_of name = column_names (or_else (fetch_columns name) [])

  lookup-collect :
      (x : Text) (acc m : List (Text × List Text)) (tables : List TableInfo)
      → collect fetch_columns acc tables ≡ some m
      → lookup x m
        ≡ (if mem x (map (λ t. t.name) tables) then some (columns_of x) else lookup x acc)
  unfolding collect
  lookup-collect x acc m [] h = ap (λ o. lookup x (or_else o [])) (sym h)
  lookup-collect x acc m (t ∷ ts) h = elim (Option-cases (fetch_columns t.name)) [
    | inl e ↦ absurd (ground (arith, rw e at h))
    | inr (cs, e) ↦
        let rest = lookup-collect x (insert t.name (column_names cs) acc) m ts (rw e at h) in
        let added = lookup-insert t.name x (column_names cs) acc in
        let known : columns_of t.name ≡ column_names cs = rw e refl in
        elim (text_eq_cases x t.name) [
          | inl (q, k) ↦ ground (arith, rest, added, text_eq_iff t.name x, ap columns_of q, known)
          | inr (n, q) ↦ ground (arith, rest, added, text_eq_iff t.name x)
        ]
  ]

  abbrev pub is_missing : TableInfo → Bool
  is_missing t = not (is_some (fetch_columns t.name))

  collect_fails :
      (acc : List (Text × List Text)) (tables : List TableInfo)
      → not (is_some (collect fetch_columns acc tables)) ≡ any is_missing tables
  unfolding collect
  collect_fails acc [] = refl
  collect_fails acc (t ∷ ts) = elim (Option-cases (fetch_columns t.name)) [
    | inl e ↦ rw e refl
    | inr (cs, e) ↦ rw e (collect_fails (insert t.name (column_names cs) acc) ts)
  ]

  module _ (is_inherited : Text → Bool) where
    -- What the editor is given for a table that is listed in `tables`, when the columns were fetched
    -- for the tables `old`.
    abbrev pub completed : List TableInfo → List TableInfo → Text → Option Columns
    completed tables old x =
        if mem x (map (λ t. t.name) tables)
        then some (
            if mem x (map (λ t. t.name) old)
            then listed (columns_of x)
            else if is_inherited x
            then inherited x
            else listed [])
        else none

    -- If none of the tables whose columns are fetched is named __proto__: if there were none of them, or
    -- the server fails for one, the editor is given nothing; if not, then it is given an entry for each
    -- name of a table that is listed now and for no other name: the columns that the server returned
    -- for that table, or, if the table was not listed at the fetch, no columns, or the property of that
    -- name that every object inherits.
    pub lookup-schema :
        (tables old : List TableInfo) (x : Text)
        → mem (text "__proto__") (map (λ t. t.name) old) ≡ false
        → Option.map (lookup x) (schema is_inherited (some tables) (all_columns fetch_columns old))
          ≡ (if is_nil old || any is_missing old then none else some (completed tables old x))
    unfolding schema all_columns lookup
    lookup-schema tables [] x proto = refl
    lookup-schema tables (t ∷ ts) x proto =
        elim (Option-cases (collect fetch_columns [] (t ∷ ts))) [
          | inl e ↦ let f = collect_fails [] (t ∷ ts) in rw e (ground (arith, rw e at f))
          | inr (m, e) ↦
              let f = collect_fails [] (t ∷ ts) in
              let g = lookup-collect x [] m (t ∷ ts) e in
              let l =
                lookup-insert_all_by (λ t. t.name) (λ n. columns_at is_inherited n (lookup n m)) x
                  [] tables in
              rw e (ground (arith, rw e at f, g, l))
        ]
