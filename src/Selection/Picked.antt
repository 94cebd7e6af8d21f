-- ===== src/Selection/Picked.antt =====
-- Which databases DbMultiSelect has selected.
use pgmanager.Common.{
  if_keep, run_keep, not, List, [], map, Text, length, leb, Bool-cases, inl, inr,
}
use pgmanager.Schemas.{Database}
use pgmanager.Selection.{
  mem, toggle_all, all_selected, filtered, click_badge, Picker, Pick, badge, everything, search_for,
  pick, picks,
}
use pgmanager.Selection.Sets.{Unrepeated, unrepeated_rules}

pub click_badge-Unrepeated :
    (name : Text) (xs : List Text) → Unrepeated xs → Unrepeated (click_badge name xs)
unfolding click_badge
click_badge-Unrepeated name xs h = elim (Bool-cases (mem name xs)) [
  | inl e ↦ rw e (search unrepeated_rules)
  | inr e ↦ rw e (search unrepeated_rules)
]

module _ (databases : List Database) where
  names : List Text
  names = map (λ d. d.name) databases

  toggle_all-Unrepeated : (xs : List Text) → Unrepeated names → Unrepeated (toggle_all databases xs)
  unfolding toggle_all names
  toggle_all-Unrepeated xs n =
      if_keep Unrepeated (all_selected databases xs) [] (map (λ d. d.name) databases) tt n

  pick-Unrepeated :
      (e : Pick) (p : Picker)
      → Unrepeated names
      → Unrepeated p.selected
      → Unrepeated (pick databases e p).selected
  unfolding pick
  pick-Unrepeated (badge d) p n h =
      if_keep (λ q. Unrepeated q.selected)
        (mem d.name (map (λ x. x.name) (filtered databases p.search)))
        (record p { selected = click_badge d.name p.selected }) p
        (click_badge-Unrepeated d.name p.selected h) h
  pick-Unrepeated everything p n h =
      if_keep (λ q. Unrepeated q.selected) (not (leb (length databases) 0))
        (record p { selected = toggle_all databases p.selected }) p
        (toggle_all-Unrepeated p.selected n) h
  pick-Unrepeated (search_for t) p n h =
      if_keep (λ q. Unrepeated q.selected) (not (leb (length databases) 5))
        (record p { search = t }) p h h

  -- If no two databases have the same name and none is selected twice at first, then none is after
  -- any clicks and searches.
  pub picks-Unrepeated :
      (es : List Pick) (p : Picker)
      → Unrepeated (map (λ d. d.name) databases)
      → Unrepeated p.selected
      → Unrepeated (picks databases es p).selected
  unfolding picks names
  picks-Unrepeated es p n h =
      run_keep (pick databases) (λ q. Unrepeated q.selected) (λ e q k. pick-Unrepeated e q n k) es p
        h
