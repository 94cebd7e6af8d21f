-- ===== src/Selection/Chosen.antt =====
-- What the inputs of names and the choice of tables can come to hold.
use pgmanager.Common.{
  run_keep, if_keep, ℕ, ◌≡◌, ◌<◌, refl, sym, ap, Bool, true, false, not, List, [], ◌∷◌, map, Option,
  none, some, Text, text_eq, is_empty, trim, length, length-map, ◌==◌, All, All-append,
  All-filter_by, Bool-cases, inl, inr, arith,
}
use pgmanager.Selection.{
  mem, set_from, Addresses, add_ip, remove_ip, IpEvent, typed, remove, enter, ip_step, ip_steps,
  Table, Choice, toggle_table, select_all_tables, Event, choose_db, toggle, select_all, step, steps,
}
use pgmanager.Selection.Sets.{
  Unrepeated, unrepeated_rules, Unrepeated-filter, Unrepeated-append, has_repetition,
  length-set_from_repeated,
}

-- No address is repeated, and none is empty.
abbrev pub AreAddresses : List Text → Type 0
AreAddresses ips = Unrepeated ips × All (λ ip. is_empty ip ≡ false) ips

add_ip-AreAddresses : (a : Addresses) → AreAddresses a.ips → AreAddresses (add_ip a).ips
unfolding add_ip
add_ip-AreAddresses a h = by_tests (is_empty (trim a.input)) (mem (trim a.input) a.ips) refl refl
  where
    by_tests :
        (b c : Bool)
        → is_empty (trim a.input) ≡ b
        → mem (trim a.input) a.ips ≡ c
        → AreAddresses (add_ip a).ips
    by_tests true c e f = rw e h
    by_tests false true e f = rw (e, f) h
    by_tests false false e f =
        rw (e, f)
          (
            Unrepeated-append (trim a.input) a.ips f h.0,
            All-append (λ ip. is_empty ip ≡ false) a.ips (trim a.input ∷ []) h.1 (e, tt),
          )

ip_step-AreAddresses :
    (e : IpEvent) (a : Addresses) → AreAddresses a.ips → AreAddresses (ip_step e a).ips
unfolding ip_step remove_ip
ip_step-AreAddresses (typed s) a h = h
ip_step-AreAddresses (remove ip) a h = (
  Unrepeated-filter (λ y. not (text_eq y ip)) a.ips h.0,
  All-filter_by (λ y. is_empty y ≡ false) (λ y. not (text_eq y ip)) a.ips h.1,
)
ip_step-AreAddresses enter a h = add_ip-AreAddresses a h

-- From a list with no repeated and no empty address, whatever is typed, added and removed, the list
-- of addresses has no repeated and no empty one.
pub ip_steps-AreAddresses :
    (es : List IpEvent) (a : Addresses) → AreAddresses a.ips → AreAddresses (ip_steps es a).ips
unfolding ip_steps
ip_steps-AreAddresses = run_keep ip_step (λ a. AreAddresses a.ips) ip_step-AreAddresses

toggle_table-Unrepeated :
    (name : Text) (c : Choice)
    → Unrepeated c.selected_tables
    → Unrepeated (toggle_table name c).selected_tables
unfolding toggle_table
toggle_table-Unrepeated name c h = elim (Bool-cases (mem name c.selected_tables)) [
  | inl e ↦ rw e (search unrepeated_rules)
  | inr e ↦ rw e (search unrepeated_rules)
]

select_all_tables-Unrepeated :
    (tables : Option (List Table)) (c : Choice)
    → Unrepeated c.selected_tables
    → Unrepeated (select_all_tables tables c).selected_tables
unfolding select_all_tables
select_all_tables-Unrepeated none c h = h
select_all_tables-Unrepeated (some tables) c h =
    let names = set_from [] (map (λ t. t.name) tables) in
    if_keep Unrepeated (length c.selected_tables == length tables) [] names tt
      (search unrepeated_rules)

step-Unrepeated :
    (e : Event) (c : Choice) → Unrepeated c.selected_tables → Unrepeated (step e c).selected_tables
unfolding step
step-Unrepeated (choose_db db) c h = tt
step-Unrepeated (toggle name) c h = toggle_table-Unrepeated name c h
step-Unrepeated (select_all tables) c h = select_all_tables-Unrepeated tables c h

-- From a choice that names no table twice, whatever is chosen, toggled and selected at once, the
-- choice names no table twice.
pub steps-Unrepeated :
    (es : List Event) (c : Choice)
    → Unrepeated c.selected_tables
    → Unrepeated (steps es c).selected_tables
unfolding steps
steps-Unrepeated = run_keep step (λ c. Unrepeated c.selected_tables) step-Unrepeated

smaller_differs : (m n : ℕ) → m < n → (m == n) ≡ false
smaller_differs m n h = ground arith

-- If a name occurs twice among the tables of the database, as it may in different schemas, then
-- with all names selected another click on "Select all" changes nothing: it does not clear the
-- selection.
pub select_all_tables-repeated :
    (tables : List Table) (c : Choice)
    → has_repetition (map (λ t. t.name) tables) ≡ true
    → c.selected_tables ≡ set_from [] (map (λ t. t.name) tables)
    → select_all_tables (some tables) c ≡ c
unfolding select_all_tables
select_all_tables-repeated tables c h e =
    let names = map (λ t. t.name) tables in
    let smaller = length-set_from_repeated [] names h in
    let same = length-map {0, 0} tables (λ t. t.name) in
    let differs : (length c.selected_tables == length tables) ≡ false =
      smaller_differs (length c.selected_tables) (length tables)
        (omega (arith, smaller, same, ap length e)) in
    rw differs (ap (λ xs. record c { selected_tables = xs }) (sym e))
