-- ===== src/Settings/Ssl/Forms.antt =====
-- Which form is open, and what it sends.
use pgmanager.Common.{
  run_keep, ◌≡◌, refl, true, false, not, ◌&&◌, ◌||◌, List, is_some, parse_int, arith,
}
use pgmanager.Settings.{int_or}
use pgmanager.Settings.Pool.Sizes.{is_proper, or_int-is_proper}
use pgmanager.Settings.Ssl.{
  Card, opened, no_files, Event, click_generate, click_upload, cancel_generate, cancel_upload,
  generated, uploaded, set_cn, set_days, set_cert, set_key, set_ca, step, steps,
}

module _ {File : Type 0} where
  -- One form at most is open, no file is chosen while the form for files is closed, and the days are
  -- a number other than 0.
  abbrev pub IsOneForm : Card File → Type 0
  IsOneForm s =
      ((s.show_generate_form && s.show_upload_form) ≡ false)
      × (((s.show_upload_form || not (is_some s.upload_cert)) ≡ true)
          × (is_proper s.generate_days ≡ true))

  step-IsOneForm : (e : Event File) (s : Card File) → IsOneForm s → IsOneForm (step File e s)
  unfolding step no_files int_or
  step-IsOneForm (set_days t) s h = (h.0, (h.1.0, or_int-is_proper (parse_int t) 1824))
  step-IsOneForm click_generate s h = (ground arith, (refl, h.1.1))
  step-IsOneForm click_upload s h = (refl, (ground arith, h.1.1))
  step-IsOneForm cancel_generate s h = (refl, h.1)
  step-IsOneForm generated s h = (refl, h.1)
  step-IsOneForm cancel_upload s h = (ground arith, (refl, h.1.1))
  step-IsOneForm uploaded s h = (ground arith, (refl, h.1.1))
  step-IsOneForm (set_cn t) s h = h
  step-IsOneForm (set_cert f) s h = ground arith
  step-IsOneForm (set_key f) s h = ground arith
  step-IsOneForm (set_ca f) s h = ground arith

  steps-keep : (es : List (Event File)) (s : Card File) → IsOneForm s → IsOneForm (steps File es s)
  unfolding steps
  steps-keep = run_keep (step File) IsOneForm step-IsOneForm

  -- Whatever is clicked, typed, chosen and answered: at most one of the two forms is open, a
  -- certificate is chosen only while the form for files is open, and the days of validity are never
  -- NaN and never 0.
  pub steps-IsOneForm : (es : List (Event File)) → IsOneForm (steps File es (opened File))
  unfolding opened
  steps-IsOneForm es = steps-keep es (opened File) (refl, (refl, refl))
