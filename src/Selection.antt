-- ===== src/Selection.antt =====
-- The inputs that collect names: backend/ui/src/components/IpInput.tsx, components/DbMultiSelect.tsx,
-- and the choice of tables in components/backup/BackupTablesTab.tsx.
pub mod Sets
pub mod Chosen
pub mod Picked
pub mod AsSet
use pgmanager.Common.{
  run, ℕ, Bool, true, false, not, ◌&&◌, ◌||◌, Option, none, some, List, [], ◌∷◌, ◌++◌, map, Text,
  text_eq, text_includes, is_empty, to_lower, trim, filter_by, any, length, ◌==◌, leb,
  if◌then◌else◌,
}
use pgmanager.Schemas.{Database}

-- `xs.includes(x)`, and `has` of a set in the order of its insertions
abbrev pub mem : Text → List Text → Bool
mem x xs = any (text_eq x) xs

-- `xs.filter((y) => y !== x)`, and `delete` of a set
abbrev pub without : Text → List Text → List Text
without x xs = filter_by (λ y. not (text_eq y x)) xs

-- `add` of a set
abbrev pub add : Text → List Text → List Text
add x xs = if mem x xs then xs else xs ++ x ∷ []

-- `new Set(xs)`, from a set that is there already
unfoldable pub set_from : List Text → List Text → List Text
set_from acc [] = acc
set_from acc (x ∷ xs) = set_from (add x acc) xs

-- The input for addresses with the list that it edits.
pub record Addresses : Type 0 where
  pub input : Text
  pub ips : List Text

unfoldable pub add_ip : Addresses → Addresses
add_ip s =
    let val = trim s.input in
    if not (is_empty val) && not (mem val s.ips)
    then record { input = []; ips = s.ips ++ val ∷ [] }
    else record { input = []; ips = s.ips }

unfoldable pub remove_ip : Text → Addresses → Addresses
remove_ip ip s = record s { ips = without ip s.ips }

pub data IpEvent : Type 0 where
  typed remove : Text → IpEvent
  enter : IpEvent

unfoldable pub ip_step : IpEvent → Addresses → Addresses
unfolding add_ip remove_ip
ip_step (typed s) a = record a { input = s }
ip_step (remove ip) a = remove_ip ip a
ip_step enter a = add_ip a

unfoldable pub ip_steps : List IpEvent → Addresses → Addresses
unfolding ip_step
ip_steps es a = run ip_step es a

-- The names that DbMultiSelect shows for a search.
unfoldable pub filtered : List Database → Text → List Database
filtered databases search =
    filter_by (λ d. text_includes (to_lower d.name) (to_lower search)) databases

unfoldable pub all_selected : List Database → List Text → Bool
all_selected databases selected =
    not (leb (length databases) 0) && length selected == length databases

unfoldable pub toggle_all : List Database → List Text → List Text
unfolding all_selected
toggle_all databases selected =
    if all_selected databases selected then [] else map (λ d. d.name) databases

-- A click on the badge of a database.
unfoldable pub click_badge : Text → List Text → List Text
click_badge name selected =
    if mem name selected then without name selected else selected ++ name ∷ []

-- DbMultiSelect: what is searched for, and the names that the form has selected.
pub record Picker : Type 0 where
  pub search : Text
  pub selected : List Text

-- The input for the search is there for more than 5 databases.
pub data Pick : Type 0 where
  badge : Database → Pick
  everything : Pick
  search_for : Text → Pick

-- The badges are those of the databases that the search leaves.
unfoldable pub pick : List Database → Pick → Picker → Picker
unfolding click_badge toggle_all filtered
pick databases (badge d) p =
    if mem d.name (map (λ x. x.name) (filtered databases p.search))
    then record p { selected = click_badge d.name p.selected }
    else p
pick databases everything p =
    if not (leb (length databases) 0)
    then record p { selected = toggle_all databases p.selected }
    else p
pick databases (search_for t) p =
    if not (leb (length databases) 5) then record p { search = t } else p

unfoldable pub picks : List Database → List Pick → Picker → Picker
unfolding pick
picks databases es p = run (pick databases) es p

pub record Table : Type 0 where
  pub schema : Text
  pub name : Text

-- BackupTablesTab: the database and the set of table names.
pub record Choice : Type 0 where
  pub selected_db : Text
  pub selected_tables : List Text

unfoldable pub toggle_table : Text → Choice → Choice
toggle_table name c = record c {
  selected_tables =
      if mem name c.selected_tables
      then without name c.selected_tables
      else c.selected_tables ++ name ∷ [];
}

-- `selectAllTables`, with the tables that are loaded
unfoldable pub select_all_tables : Option (List Table) → Choice → Choice
unfolding set_from
select_all_tables none c = c
select_all_tables (some tables) c = record c {
  selected_tables =
      if length c.selected_tables == length tables
      then []
      else set_from [] (map (λ t. t.name) tables);
}

pub data Event : Type 0 where
  choose_db toggle : Text → Event
  select_all : Option (List Table) → Event

unfoldable pub step : Event → Choice → Choice
unfolding toggle_table select_all_tables
step (choose_db db) c = record { selected_db = db; selected_tables = [] }
step (toggle name) c = toggle_table name c
step (select_all tables) c = select_all_tables tables c

unfoldable pub steps : List Event → Choice → Choice
unfolding step
steps es c = run step es c

-- `handleBackup`: the database and tables that `backupDatabase` is called with.
unfoldable pub handle_backup : Choice → Option (Text × List Text)
handle_backup c =
    if is_empty c.selected_db || leb (length c.selected_tables) 0
    then none
    else some (c.selected_db, c.selected_tables)
