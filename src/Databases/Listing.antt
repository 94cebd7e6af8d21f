-- ===== src/Databases/Listing.antt =====
-- backend/ui/src/components/DatabasesTable.tsx: the rows of the table and their bins.
use pgmanager.Common.{
  ◌≡◌, refl, Bool, true, false, Bool-cases, inl, inr, Option, none, some, List, [], ◌∷◌, ◌++◌, map,
  Text, text, is_empty, if◌then◌else◌,
}
use pgmanager.Schemas.{Database}
use pgmanager.Confirm
use pgmanager.Confirm.{Page}
use pgmanager.Databases.{filtered_databases, on_answer, bin, click_bin, clicked, step}

-- The bin of a row: a click asks for the deletion of `target`.
pub record Bin : Type 0 where
  pub is_disabled : Bool
  pub target : Text

-- A row: the name, where it leads to, and the bin for an admin.
pub record Row : Type 0 where
  pub name : Text
  pub path : Text
  pub bin : Option Bin

pub data Listing : Type 0 where
  loading : Listing
  message : Text → Listing
  rows : List Row → Listing

bin_of : Bool → Database → Option Bin
bin_of false db = none
bin_of true db = some (record { is_disabled = db.protected; target = db.name })

unfoldable pub row : Bool → Database → Row
unfolding bin_of
row is_admin db = record {
  name = db.name;
  path = text "/databases/" ++ db.name;
  bin = bin_of is_admin db;
}

-- The body of the table for the databases that are loaded.
unfoldable pub listing : Bool → Bool → Text → Option (List Database) → Listing
unfolding filtered_databases row
listing is_loading is_admin search databases =
    if is_loading then loading else found (shown databases)
  where
    shown : Option (List Database) → List Database
    shown none = []
    shown (some dbs) = filtered_databases dbs search

    found : List Database → Listing
    found [] =
        message
          (text (if is_empty search then "No databases found." else "No matching databases found."))
    found (db ∷ dbs) = rows (map (row is_admin) (db ∷ dbs))

-- A click on a bin, if there is one.
unfoldable pub press : Option Bin → Page Text → Page Text
press none s = s
press (some b) s = if b.is_disabled then s else Confirm.step Text on_answer (Confirm.ask b.target) s

-- The bin of a database's row does what `Databases.step` says of a click on the bin of that database,
-- for admins and others, protected or not.
pub press-row :
    (is_admin : Bool) (db : Database) (s : Page Text)
    → press (row is_admin db).bin s ≡ step is_admin (bin db) s
unfolding press row step click_bin clicked
press-row false db s = refl
press-row true db s = elim (Bool-cases db.protected) [ inl e ↦ rw e refl | inr e ↦ rw e refl ]
