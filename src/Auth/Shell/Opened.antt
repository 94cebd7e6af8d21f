-- ===== src/Auth/Shell/Opened.antt =====
-- On which page the menu of a mobile device is open.
use pgmanager.Common.{
  ◌≡◌, ◌⊎◌, refl, ◌∙◌, ap, true, Option, List, [], ◌∷◌, ◌++◌, Text, text_eq, text_rules, Bool-cases,
  any, ◌&&◌, inl, inr, arith,
}
use pgmanager.Schemas.{AuthUser}
use pgmanager.Auth.{Location, mobile_items}
use pgmanager.Auth.Shell.{
  Shell, Event, opens, closes, collapses, clicks, visits, visit, click_link, link, step, steps,
}

visit-IsOpen :
    (p : Text) (s : Shell)
    → (visit p s).is_mobile_open ≡ true
    → (s.is_mobile_open ≡ true) × (p ≡ s.pathname)
unfolding visit
visit-IsOpen p s h = grind text_rules

click_link-IsOpen :
    (l : Location) (s : Shell)
    → (click_link l s).is_mobile_open ≡ true
    → (s.is_mobile_open ≡ true) × (link l ≡ s.pathname)
unfolding click_link visit
click_link-IsOpen l s h = grind text_rules

-- The menu is open at the end, and the path is the one of the beginning.
abbrev Stays : Shell → Shell → Type 0
Stays s s' = (s.is_mobile_open ≡ true) × (s'.pathname ≡ s.pathname)

module _ (user : Option AuthUser) where
  -- A step that leaves the menu open changes no path, and it opened the menu or found it open.
  step-Stays :
      (e : Event) (s : Shell)
      → (step user e s).is_mobile_open ≡ true
      → ((e ≡ opens) ⊎ (s.is_mobile_open ≡ true)) × ((step user e s).pathname ≡ s.pathname)
  unfolding step
  step-Stays opens s h = (inl refl, refl)
  step-Stays closes s h = absurd (ground (arith, h))
  step-Stays collapses s h = (inr h, refl)
  step-Stays (clicks l) s h =
      elim (Bool-cases
        (s.is_mobile_open && any (λ i. text_eq (link i) (link l)) (mobile_items user))) [
          | inl e ↦ let k = click_link-IsOpen l s (rw e at h) in rw e (inr k.0, k.1)
          | inr e ↦ rw e (inr (rw e at h), refl)
        ]
  step-Stays (visits path) s h = let k = visit-IsOpen path s h in (inr k.0, k.1)

  -- Where the menu was opened last.
  abbrev pub OpenedHere : List Event → Shell → Type 0
  OpenedHere es s =
      (fs : List Event) × (gs : List Event) × (es ≡ fs ++ opens ∷ gs)
      × ((steps user es s).pathname ≡ (steps user fs s).pathname)

  -- If the menu of a mobile device is open after some events, then either it was open before them and
  -- the path is still the same, or the button opened it during them, on the page that is still shown.
  pub steps-OpenedHere :
      (es : List Event) (s : Shell)
      → (steps user es s).is_mobile_open ≡ true
      → Stays s (steps user es s) ⊎ OpenedHere es s
  unfolding steps
  steps-OpenedHere [] s h = inl (h, refl)
  steps-OpenedHere (e ∷ es) s h = elim (steps-OpenedHere es (step user e s) h) [
    | inl (o, p) ↦
        let (found, k) = step-Stays e s o in
        elim found [ inl q ↦ inr ([], es, rw q refl, p ∙ k) | inr q ↦ inl (q, p ∙ k) ]
    | inr (fs, gs, q, p) ↦ inr (e ∷ fs, gs, ap (λ r. e ∷ r) q, p)
  ]
