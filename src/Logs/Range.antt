-- ===== src/Logs/Range.antt =====
-- Which entries are asked for.
use pgmanager.Common.{
  run_keep, ℕ, ◌*◌, ◌<◌, ◌≡◌, ◌⊎◌, inl, refl, true, false, none, some, List, arith,
}
use pgmanager.Pager.{Click, previous, next, offset, click, controls, total_pages}
use pgmanager.Logs.{
  Filters, Page, opened, params, Event, set_username, set_action, set_database, turn, step, steps,
}

-- A click on a page that asks for the first entries or for ones that there are leads to such a page.
click_in_range :
    (n page : ℕ) (c : Click)
    → (page * 50 ≡ 0) ⊎ (page * 50 < n)
    → (click 50 (some n) c page * 50 ≡ 0) ⊎ (click 50 (some n) c page * 50 < n)
unfolding click controls total_pages
click_in_range n page previous h = ground arith
click_in_range n page next h = ground arith

click_unloaded : (page : ℕ) (c : Click) → click 50 none c page ≡ page
unfolding click controls
click_unloaded page previous = refl
click_unloaded page next = refl

module _ (count : Filters → ℕ) where
  -- The page asks for the first entries or for ones that there are.
  abbrev pub IsInRange : Page → Type 0
  IsInRange s = ((params s).offset ≡ 0) ⊎ ((params s).offset < count s.filters)

  step-IsInRange : (e : Event) (s : Page) → IsInRange s → IsInRange (step count e s)
  unfolding step params offset
  step-IsInRange (set_username t) s h = inl refl
  step-IsInRange (set_action t) s h = inl refl
  step-IsInRange (set_database t) s h = inl refl
  step-IsInRange (turn true c) s h = click_in_range (count s.filters) s.page c h
  step-IsInRange (turn false c) s h = rw (click_unloaded s.page c) h

  steps-keep : (es : List Event) (s : Page) → IsInRange s → IsInRange (steps count es s)
  unfolding steps
  steps-keep = run_keep (step count) IsInRange step-IsInRange

  -- Whatever is typed into the filters and whichever buttons are clicked, with the data loaded or
  -- not, the page asks for the first entries or for entries that the log has for these filters: no
  -- filter and no click leads past the end.
  pub steps-IsInRange : (es : List Event) → IsInRange (steps count es opened)
  unfolding opened params offset
  steps-IsInRange es = steps-keep es opened (inl refl)
