-- ===== src/Settings/Pool/Sizes.antt =====
-- Which sizes the form holds, and when it can be saved.
use pgmanager.Common.{
  run_keep_when, ℕ, zero, suc, ◌≡◌, ◌≢◌, ◌↔◌, refl, ap, Bool, true, false, Integer, nan, pos, neg,
  Option, none, some, List, text_eq_cases, ◌⊎◌, inl, inr, parse_int, All, arith, ◌==◌,
  if◌then◌else◌,
}
use pgmanager.Api.Databases.{PgbouncerConfig}
use pgmanager.Settings.{or_int, int_or, int_eq}
use pgmanager.Settings.Pool.{
  Form, arrived, loaded, opened, differ, changes, has_changes, click_save, Event, load, set_mode,
  set_default_pool_size, set_max_client_conn, save, saved, refused, saving, step, steps,
}

-- A number other than NaN, 0 and -0.
abbrev pub is_proper : Integer → Bool
is_proper nan = false
is_proper (pos zero) = false
is_proper (pos (suc n)) = true
is_proper (neg zero) = false
is_proper (neg (suc n)) = true

pub or_int-is_proper : (a : Integer) (n : ℕ) → is_proper (or_int a (suc n)) ≡ true
unfolding or_int
or_int-is_proper nan n = refl
or_int-is_proper (pos zero) n = refl
or_int-is_proper (pos (suc m)) n = refl
or_int-is_proper (neg zero) n = refl
or_int-is_proper (neg (suc m)) n = refl

same_nat : (m n : ℕ) → (m ≡ n) × ((m == n) ≡ true) ⊎ (m ≢ n) × ((m == n) ≡ false)
same_nat m n = ground arith

int_eq_cases :
    (a b : Integer)
    → is_proper a ≡ true
    → is_proper b ≡ true
    → (a ≡ b) × (int_eq a b ≡ true) ⊎ (a ≢ b) × (int_eq a b ≡ false)
unfolding int_eq
int_eq_cases (pos (suc m)) (pos (suc n)) h k = elim (same_nat (suc m) (suc n)) [
  | inl e ↦ inl (ap pos (e.0), e.1)
  | inr e ↦ inr (λ p. ground arith, e.1)
]
int_eq_cases (neg (suc m)) (neg (suc n)) h k = elim (same_nat (suc m) (suc n)) [
  | inl e ↦ inl (ap neg (e.0), e.1)
  | inr e ↦ inr (λ p. ground arith, e.1)
]
int_eq_cases a b h k = ground arith

abbrev pub HasSizes : PgbouncerConfig → Type 0
HasSizes c = (is_proper c.default_pool_size ≡ true) × (is_proper c.max_client_conn ≡ true)

-- The server's configurations have proper sizes.
abbrev pub Serves : Event → Type 0
Serves (load c) = HasSizes c
Serves (saved c) = HasSizes c
Serves e = Unit

abbrev Loaded : Option PgbouncerConfig → Type 0
Loaded none = Unit
Loaded (some c) = HasSizes c

abbrev pub IsSized : Form → Type 0
IsSized s = HasSizes s.local_config × Loaded s.config

saving-IsSized : (o : Option PgbouncerConfig) (s : Form) → IsSized s → IsSized (saving o s)
unfolding saving
saving-IsSized none s h = h
saving-IsSized (some c) s h = h

arrived-IsSized :
    (o : Option PgbouncerConfig) (c : PgbouncerConfig) (s : Form)
    → HasSizes c
    → IsSized s
    → IsSized (arrived o c s)
unfolding arrived loaded
arrived-IsSized none c s k h = (k, k)
arrived-IsSized (some old) c s k h = by_test (differ old c)
  where
    by_test : (b : Bool) → IsSized (if b then record s { config = some c; local_config = c } else s)
    by_test true = (k, k)
    by_test false = h

step-IsSized : (e : Event) (s : Form) → Serves e → IsSized s → IsSized (step e s)
unfolding step loaded int_or
step-IsSized (load c) s o h = arrived-IsSized s.config c s o h
step-IsSized (saved c) s o h = arrived-IsSized s.config c (record s { is_pending = false }) o h
step-IsSized refused s o h = h
step-IsSized save s o h = saving-IsSized (click_save s) s h
step-IsSized (set_mode m) s o h = h
step-IsSized (set_default_pool_size t) s o h = ((or_int-is_proper (parse_int t) 19, h.0.1), h.1)
step-IsSized (set_max_client_conn t) s o h = ((h.0.0, or_int-is_proper (parse_int t) 99), h.1)

steps-keep : (es : List Event) (s : Form) → All Serves es → IsSized s → IsSized (steps es s)
unfolding steps
steps-keep = run_keep_when step IsSized Serves step-IsSized

-- As far as the server's configurations hold numbers other than 0, the sizes in the form are such
-- numbers, whatever is typed: never NaN and never 0.
pub steps-IsSized : (es : List Event) → All Serves es → IsSized (steps es opened)
unfolding opened
steps-IsSized es o = steps-keep es opened o ((refl, refl), tt)

config_eq :
    (a c : PgbouncerConfig)
    → a.pool_mode ≡ c.pool_mode
    → a.default_pool_size ≡ c.default_pool_size
    → a.max_client_conn ≡ c.max_client_conn
    → a ≡ c
config_eq a c m d x =
    λ i. record { pool_mode = m i; default_pool_size = d i; max_client_conn = x i }

differ_iff : (a c : PgbouncerConfig) → HasSizes a → HasSizes c → (differ a c ≡ true) ↔ (a ≢ c)
unfolding differ
differ_iff a c h k = elim (text_eq_cases a.pool_mode c.pool_mode) [
  | inr m ↦ (λ t p. m.0 (ap (λ z. z.pool_mode) p), λ t. rw (m.1) refl)
  | inl m ↦ elim (int_eq_cases a.default_pool_size c.default_pool_size h.0 k.0) [
    | inr d ↦ (λ t p. d.0 (ap (λ z. z.default_pool_size) p), λ t. rw (m.1, d.1) refl)
    | inl d ↦ elim (int_eq_cases a.max_client_conn c.max_client_conn h.1 k.1) [
      | inr x ↦ (λ t p. x.0 (ap (λ z. z.max_client_conn) p), λ t. rw (m.1, d.1, x.1) refl)
      | inl x ↦
          (λ t. ground (arith, m.1, d.1, x.1), λ t. absurd (t (config_eq a c (m.0) (d.0) (x.0))))
    ]
  ]
]

click_save_iff :
    (s : Form) (c : PgbouncerConfig)
    → IsSized s
    → s.config ≡ some c
    → s.is_pending ≡ false
    → (click_save s ≡ some s.local_config) ↔ (s.local_config ≢ c)
unfolding click_save has_changes changes
click_save_iff s c h e q =
    let k : HasSizes c = rw e at (h.1) in
    let d = differ_iff s.local_config c (h.0) k in
    rw (e, q) (λ t. d.0 (ground arith), λ t. rw (d.1 t) refl)

-- With such configurations, after anything that was typed, loaded and saved: when a configuration
-- `c` is loaded and no save is under way, "Save" sends the form exactly if it is another
-- configuration than `c`.
pub steps-click_save_iff :
    (es : List Event) (c : PgbouncerConfig)
    → All Serves es
    → (steps es opened).config ≡ some c
    → (steps es opened).is_pending ≡ false
    → (click_save (steps es opened) ≡ some (steps es opened).local_config)
      ↔ ((steps es opened).local_config ≢ c)
steps-click_save_iff es c o e q = click_save_iff (steps es opened) c (steps-IsSized es o) e q
