-- ===== src/Settings/Access/Rows.antt =====
-- backend/ui/src/routes/Settings.tsx and components/DatabaseAccessRow.tsx: the rows of the list and
-- what a click on the switch of one changes.
use mathlib.Core.Path.{subst}
use pgmanager.Common.{
  ℕ, zero, suc, ◌≡◌, ◌≢◌, refl, sym, ap, Bool, false, not, Option, none, some, or_else, List, [],
  ◌∷◌, map, Text, text_eq_cases, text_eq_refl, inl, inr, All, All-get_elem?, get_elem?-map,
  get_elem?, if◌then◌else◌, arith,
}
use pgmanager.Settings.Access.{PgbouncerDatabase, Toggle, toggled, update_data}

-- `DatabaseAccessRow`
pub record AccessRow : Type 0 where
  pub database_name : Text
  pub allowed : Bool
  pub disabled : Bool

unfoldable pub shown_row : Bool → PgbouncerDatabase → AccessRow
shown_row is_pending db = record {
  database_name = db.database_name;
  allowed = db.allowed;
  disabled = is_pending;
}

-- The rows that are shown, with `toggleMutation.isPending`; there is none without data or while they
-- are loaded.
unfoldable pub access_rows : Bool → Bool → Option (List PgbouncerDatabase) → List AccessRow
unfolding shown_row
access_rows is_loading is_pending none = []
access_rows is_loading is_pending (some dbs) =
    if is_loading then [] else map (shown_row is_pending) dbs

-- A click on the switch of a row: what the mutation is called with.
unfoldable pub click_switch : AccessRow → Option Toggle
click_switch row =
    if row.disabled
    then none
    else some (record { database_name = row.database_name; allowed = not row.allowed })

-- No two databases have the same name.
abbrev pub AreDistinct : List PgbouncerDatabase → Type 0
AreDistinct [] = Unit
AreDistinct (d ∷ dbs) = All (λ e. e.database_name ≢ d.database_name) dbs × AreDistinct dbs

-- The list with the database at a place switched over.
abbrev pub flip_at : ℕ → List PgbouncerDatabase → List PgbouncerDatabase
flip_at i [] = []
flip_at zero (d ∷ dbs) = record d { allowed = not d.allowed } ∷ dbs
flip_at (suc i) (d ∷ dbs) = d ∷ flip_at i dbs

toggled_other :
    (v : Toggle) (dbs : List PgbouncerDatabase)
    → All (λ e. e.database_name ≢ v.database_name) dbs
    → toggled v dbs ≡ dbs
unfolding toggled
toggled_other v [] h = refl
toggled_other v (d ∷ dbs) h = elim (text_eq_cases d.database_name v.database_name) [
  | inl (e, _) ↦ absurd (h.0 e)
  | inr (_, e) ↦ rw e (ap (λ ds. d ∷ ds) (toggled_other v dbs h.1))
]

-- The list after a click on the switch of that row.
abbrev pub clicked : AccessRow → List PgbouncerDatabase → Option (List PgbouncerDatabase)
clicked row dbs = elim (click_switch row) [ none ↦ some dbs | some v ↦ update_data v (some dbs) ]

flip-toggled :
    (dbs : List PgbouncerDatabase) (i : ℕ) (d : PgbouncerDatabase)
    → AreDistinct dbs
    → get_elem? dbs i ≡ some d
    → toggled (record { database_name = d.database_name; allowed = not d.allowed }) dbs
      ≡ flip_at i dbs
unfolding toggled
flip-toggled [] i d n h = absurd (ground (arith, h))
flip-toggled (c ∷ dbs) zero d n h =
    let e : c ≡ d = ap (λ o. or_else o c) h in
    subst
      (λ x.
        toggled (record { database_name = x.database_name; allowed = not x.allowed }) (c ∷ dbs)
        ≡ flip_at zero (c ∷ dbs))
      e
      (rw (text_eq_refl c.database_name) (
        ap (λ ds. record c { allowed = not c.allowed } ∷ ds)
          (toggled_other (record { database_name = c.database_name; allowed = not c.allowed }) dbs
            n.0)))
flip-toggled (c ∷ dbs) (suc i) d n h =
    let v : Toggle = record { database_name = d.database_name; allowed = not d.allowed } in
    elim (text_eq_cases c.database_name v.database_name) [
      | inl (e, _) ↦
          absurd (All-get_elem? (λ x. x.database_name ≢ c.database_name) dbs i d n.0 h (sym e))
      | inr (_, e) ↦ rw e (ap (λ ds. c ∷ ds) (flip-toggled dbs i d n.1 h))
    ]

-- For a list of databases with distinct names that is loaded: a click on the switch of the row shown
-- at a place, while no change is under way, switches the database at that place over and leaves every
-- other as it is.
pub clicked-flip_at :
    (dbs : List PgbouncerDatabase) (i : ℕ) (row : AccessRow)
    → AreDistinct dbs
    → get_elem? (access_rows false false (some dbs)) i ≡ some row
    → clicked row dbs ≡ some (flip_at i dbs)
unfolding access_rows shown_row click_switch update_data
clicked-flip_at dbs i row n h =
    let (d, found, e) = get_elem?-map (shown_row false) dbs i row h in
    subst (λ r. clicked r dbs ≡ some (flip_at i dbs)) e (ap some (flip-toggled dbs i d n found))
