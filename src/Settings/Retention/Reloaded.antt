-- ===== src/Settings/Retention/Reloaded.antt =====
-- What comes back of the days that are saved.
use pgmanager.Common.{
  run_keep, ℕ, zero, suc, ◌≡◌, refl, Bool, true, false, Integer, nan, pos, neg, Option, none, some,
  List, Text, show_integer, parse_int, parse_int-show_nat, parse_int-show_negative, map, arith,
}
use pgmanager.Settings.{or_int, int_or, int_eq}
use pgmanager.Settings.Retention.{
  Form, opened, loaded, click_save, stored, Event, load, typed, save, saved, refused, saving, step,
  steps,
}

-- The days that the form can hold: NaN and -0 are replaced.
abbrev pub is_plain : Integer → Bool
is_plain nan = false
is_plain (neg zero) = false
is_plain a = true

or_int-is_plain : (a : Integer) (n : ℕ) → is_plain (or_int a n) ≡ true
unfolding or_int
or_int-is_plain nan n = refl
or_int-is_plain (pos zero) n = refl
or_int-is_plain (pos (suc m)) n = refl
or_int-is_plain (neg zero) n = refl
or_int-is_plain (neg (suc m)) n = refl

abbrev IsPlain : Form → Type 0
IsPlain s = is_plain s.retention_days ≡ true

loaded-IsPlain : (t : Option Text) (s : Form) → IsPlain s → IsPlain (loaded t s)
unfolding loaded int_or
loaded-IsPlain none s h = h
loaded-IsPlain (some t) s h = or_int-is_plain (parse_int t) 0

saving-IsPlain : (o : Option Integer) (s : Form) → IsPlain s → IsPlain (saving o s)
unfolding saving
saving-IsPlain none s h = h
saving-IsPlain (some d) s h = h

step-IsPlain : (e : Event) (s : Form) → IsPlain s → IsPlain (step e s)
unfolding step int_or
step-IsPlain (load t) s h = loaded-IsPlain t s h
step-IsPlain (typed t) s h = or_int-is_plain (parse_int t) 0
step-IsPlain save s h = saving-IsPlain (click_save s) s h
step-IsPlain saved s h = h
step-IsPlain refused s h = h

steps-IsPlain : (es : List Event) (s : Form) → IsPlain s → IsPlain (steps es s)
unfolding steps
steps-IsPlain = run_keep step IsPlain step-IsPlain

-- `parseInt` reads back what `toString` wrote.
pub int_or-stored : (a : Integer) → is_plain a ≡ true → int_or (stored a) 0 ≡ a
unfolding int_or stored show_integer or_int
int_or-stored (pos zero) h = rw (parse_int-show_nat 0) refl
int_or-stored (pos (suc n)) h = rw (parse_int-show_nat (suc n)) refl
int_or-stored (neg (suc n)) h = rw (parse_int-show_negative (suc n)) refl
int_or-stored (neg zero) h = ground arith
int_or-stored nan h = ground arith

click_save-plain :
    (s : Form) (days : Integer) → IsPlain s → click_save s ≡ some days → is_plain days ≡ true
unfolding click_save
click_save-plain s days h e = let same : s.retention_days ≡ days = ground arith in rw same at h

int_eq_refl : (a : Integer) → is_plain a ≡ true → int_eq a a ≡ true
unfolding int_eq
int_eq_refl (pos n) h = ground arith
int_eq_refl (neg n) h = ground arith
int_eq_refl nan h = ground arith

-- The form after the value that was stored is loaded.
loaded_stored :
    (s : Form) (days : Integer)
    → is_plain days ≡ true
    → let t = step (load (some (stored days))) s in
      ((t.retention_days ≡ days) × (t.original_retention_days ≡ days)) × (click_save t ≡ none)
unfolding step loaded click_save
loaded_stored s days h = rw (int_or-stored days h, int_eq_refl days h) ((refl, refl), refl)

-- Whatever is loaded, typed and saved before, and whatever is typed while a save is under way: when
-- the save has succeeded and new settings arrive with the value that was sent, the form holds
-- those days as its own and as the original ones, and "Save" sends nothing.
pub steps-reloaded :
    (es : List Event) (ts : List Text) (days : Integer)
    → click_save (steps es opened) ≡ some days
    → let s =
        step
          (load (some (stored days)))
          (step saved (steps (map typed ts) (step save (steps es opened)))) in
      ((s.retention_days ≡ days) × (s.original_retention_days ≡ days)) × (click_save s ≡ none)
unfolding opened
steps-reloaded es ts days h =
    loaded_stored (step saved (steps (map typed ts) (step save (steps es opened)))) days
      (click_save-plain (steps es opened) days (steps-IsPlain es opened refl) h)
