-- ===== src/Common/Runs.antt =====
-- Runs of a step function over a list of events, and what they keep.
use mathlib.Core.Path.{◌≡◌, refl}
use mathlib.Core.Bool.{Bool, true, false}
use mathlib.Core.List.{List, [], ◌∷◌, ◌++◌}
use pgmanager.Common.Tests.{if◌then◌else◌}
use pgmanager.Common.Lists.{All}

-- What holds of both branches holds of the conditional.
pub if_keep {ℓ κ} :
    {A : Type ℓ} (P : A → Type κ) (b : Bool) (x y : A) → P x → P y → P (if b then x else y)
if_keep P true x y h k = h
if_keep P false x y h k = k

module _ {ℓ κ} {E : Type ℓ} {S : Type κ} where
  abbrev pub run : (E → S → S) → List E → S → S
  run step [] s = s
  run step (e ∷ es) s = run step es (step e s)

  pub run-append :
      (step : E → S → S) (es fs : List E) (s : S)
      → run step (es ++ fs) s ≡ run step fs (run step es s)
  run-append step [] fs s = refl
  run-append step (e ∷ es) fs s = run-append step es fs (step e s)

  module _ {μ} (step : E → S → S) (P : S → Type μ) where
    -- What every step keeps, a run keeps.
    pub run_keep :
        ((e : E) (s : S) → P s → P (step e s)) → (es : List E) (s : S) → P s → P (run step es s)
    run_keep k [] s h = h
    run_keep k (e ∷ es) s h = run_keep k es (step e s) (k e s h)

    -- The same for steps that keep it when the event is of a kind.
    pub run_keep_when {ν} :
        (Q : E → Type ν)
        → ((e : E) (s : S) → Q e → P s → P (step e s))
        → (es : List E) (s : S) → All Q es
        → P s
        → P (run step es s)
    run_keep_when Q k [] s q h = h
    run_keep_when Q k (e ∷ es) s q h = run_keep_when Q k es (step e s) q.1 (k e s q.0 h)
