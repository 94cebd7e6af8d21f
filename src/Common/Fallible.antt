-- ===== src/Common/Fallible.antt =====
-- Chains of steps of which each may fail.
use mathlib.Core.Path.{◌≡◌, refl}
use mathlib.Core.Logic.{◌↔◌}
use mathlib.Core.Option.{Option, none, some}
use native.Mathlib.Omega.{arith}

infixl 5 ◌>>=◌
-- What is done with an answer, unless it is an error.
abbrev pub ◌>>=◌ {ℓ κ} : {A : Type ℓ} {B : Type κ} → Option A → (A → Option B) → Option B
none >>= f = none
some a >>= f = f a

pub some_injective : {A : Type 0} {a b : A} → some a ≡ some b → a ≡ b
some_injective h = ground (arith, h)

-- A chain gives a result exactly when its first step gives one from which the rest gives it.
pub bind_iff :
    {A B : Type 0} (m : Option A) (f : A → Option B) (b : B)
    → ((m >>= f) ≡ some b) ↔ ((a : A) × (m ≡ some a) × (f a ≡ some b))
bind_iff none f b = (λ h. absurd (ground (arith, h)), λ h. absurd (ground (arith, h.1)))
bind_iff (some a) f b = (λ h. (a, refl, h), λ h. rw (some_injective h.1) h.2)
