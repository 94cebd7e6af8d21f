-- ===== src/Common/Decimal.antt =====
-- Integers as JavaScript writes and reads them: `String(n)` and `parseInt(s, 10)`. The values are
-- exact, as those of JavaScript are below 2 ^ 53.
use Prim.Native.Nat.{ℕ, zero, suc, ◌+◌, ◌-◌, ◌*◌, ◌/◌, ◌%◌, ◌<◌}
use mathlib.Core.Path.{◌≡◌, refl, ap, sym, subst, ◌∙◌}
use mathlib.Core.Logic.{◌≢◌, inl, inr}
use mathlib.Core.Bool.{Bool, true, false}
use mathlib.Core.List.{[], ◌∷◌, ◌++◌}
use native.Mathlib.Omega.{arith}
use pgmanager.Common.Tests.{ltb, ◌==◌, if◌then◌else◌, Bool-cases}
use pgmanager.Common.Lists.{All, All-append}
use pgmanager.Common.Texts.{Text, is_digit, is_space, text}

-- The digits of `n`, with as many rounds as the fuel allows; `n` digits are more than enough.
show_rounds : ℕ → ℕ → Text
show_rounds zero n = []
show_rounds (suc f) n = elim (ltb n 10) [
  | true ↦ (b'0' + n) ∷ []
  | false ↦ show_rounds f (n / 10) ++ (b'0' + n % 10) ∷ []
]

unfoldable pub show_nat : ℕ → Text
unfolding show_rounds
show_nat n = show_rounds (suc n) n

-- The value of a run of digits after `acc`.
unfoldable pub digits_value : ℕ → Text → ℕ
digits_value acc [] = acc
digits_value acc (c ∷ s) = digits_value (acc * 10 + (c - b'0')) s

abbrev pub AllDigits : Text → Type 0
AllDigits = All (λ c. is_digit c ≡ true)

digits_value-append :
    (acc : ℕ) (s : Text) (c : ℕ)
    → digits_value acc (s ++ c ∷ []) ≡ digits_value acc s * 10 + (c - b'0')
unfolding digits_value
digits_value-append acc [] c = refl
digits_value-append acc (d ∷ s) c = digits_value-append (acc * 10 + (d - b'0')) s c

digits_value-rounds : (f n : ℕ) → n < f → digits_value 0 (show_rounds f n) ≡ n
unfolding show_rounds digits_value
digits_value-rounds zero n h = elim h [ ]
digits_value-rounds (suc f) n h = elim (Bool-cases (ltb n 10)) [
  | inl small ↦ rw (small, show_rounds) (omega arith)
  | inr large ↦
      rw (large, show_rounds)
        (rw (digits_value-append 0 (show_rounds f (n / 10)) (b'0' + n % 10))
          (rw (digits_value-rounds f (n / 10) (ground arith)) (omega arith)))
]

pub digits_value-show_nat : (n : ℕ) → digits_value 0 (show_nat n) ≡ n
unfolding show_nat
digits_value-show_nat n = digits_value-rounds (suc n) n (omega arith)

AllDigits-rounds : (f n : ℕ) → AllDigits (show_rounds f n)
unfolding show_rounds
AllDigits-rounds zero n = tt
AllDigits-rounds (suc f) n = elim (Bool-cases (ltb n 10)) [
  | inl small ↦ rw (small, show_rounds) (ground arith, tt)
  | inr large ↦
      rw (large, show_rounds)
        (All-append (λ c. is_digit c ≡ true) (show_rounds f (n / 10)) _
          (AllDigits-rounds f (n / 10)) (ground arith, tt))
]

pub All_digits-show_nat : (n : ℕ) → AllDigits (show_nat n)
unfolding show_nat
All_digits-show_nat n = AllDigits-rounds (suc n) n

append-ne-nil : (s : Text) (c : ℕ) → s ++ c ∷ [] ≢ []
append-ne-nil [] c e = cc
append-ne-nil (d ∷ s) c e = cc

pub show_nat-ne-nil : (n : ℕ) → show_nat n ≢ []
unfolding show_nat
show_nat-ne-nil n = elim (Bool-cases (ltb n 10)) [
  | inl small ↦ rw (small, show_rounds) (λ e. cc)
  | inr large ↦ rw (large, show_rounds) (append-ne-nil _ _)
]

-- The longest prefix of units that pass the test, and the rest.
unfoldable pub span : (ℕ → Bool) → Text → Text × Text
span p [] = ([], [])
span p (c ∷ s) = let (taken, rest) = span p s in if p c then (c ∷ taken, rest) else ([], c ∷ s)

-- Where the prefix passes and the rest does not go on with a unit that passes, `span` splits there.
pub span-All :
    (p : ℕ → Bool) (s rest : Text)
    → All (λ c. p c ≡ true) s
    → span p rest ≡ ([], rest)
    → span p (s ++ rest) ≡ (s, rest)
unfolding span
span-All p [] rest h k = k
span-All p (c ∷ s) rest h k = rw (h.0, span-All p s rest h.1 k)

-- The numbers that `parseInt` returns: NaN, n, and -n (`neg 0` is -0).
pub data Integer : Type 0 where
  nan : Integer
  pos neg : ℕ → Integer

unfoldable pub show_integer : Integer → Text
show_integer nan = text "NaN"
show_integer (pos n) = show_nat n
show_integer (neg zero) = text "0"
show_integer (neg (suc n)) = b'-' ∷ show_nat (suc n)

read_digits : (ℕ → Integer) → Text → Integer
read_digits sign s = elim ((span is_digit s).0) [
  | [] ↦ nan
  | d ∷ ds ↦ sign (digits_value 0 (d ∷ ds))
]

read_signed : Text → Integer
unfolding read_digits
read_signed [] = nan
read_signed (c ∷ s) =
    if c == b'-'
    then read_digits neg s
    else if c == b'+'
    then read_digits pos s
    else read_digits pos (c ∷ s)

-- `parseInt(s, 10)`
unfoldable pub parse_int : Text → Integer
unfolding read_signed
parse_int s = read_signed (span is_space s).1

-- A run of digits is a prefix of itself.
span-digits : (s : Text) → AllDigits s → span is_digit s ≡ (s, [])
unfolding span
span-digits [] h = refl
span-digits (c ∷ s) h = rw (h.0, span-digits s h.1)

parse_int-digits :
    (c : ℕ) (s : Text) → AllDigits (c ∷ s) → parse_int (c ∷ s) ≡ pos (digits_value 0 (c ∷ s))
unfolding parse_int
parse_int-digits c s h =
    let blank : (span is_space (c ∷ s)).1 ≡ c ∷ s = unfold span in ground (arith, h.0) in
    let minus : (c == b'-') ≡ false = ground (arith, h.0) in
    let plus : (c == b'+') ≡ false = ground (arith, h.0) in
    rw (blank, minus, plus) (rw (span-digits (c ∷ s) h, read_digits))

-- A number that `String` wrote is read back.
pub parse_int-show_nat : (n : ℕ) → parse_int (show_nat n) ≡ pos n
parse_int-show_nat n = go (show_nat n) refl
  where
    go : (s : Text) → show_nat n ≡ s → parse_int (show_nat n) ≡ pos n
    go [] e = absurd (show_nat-ne-nil n e)
    go (c ∷ s) e =
        let digits : AllDigits (c ∷ s) = subst AllDigits e (All_digits-show_nat n) in
        rw e (
          parse_int-digits c s digits
          ∙ ap pos (ap (digits_value 0) (sym e) ∙ digits_value-show_nat n))

parse_int-minus :
    (c : ℕ) (s : Text) → AllDigits (c ∷ s) → parse_int (b'-' ∷ c ∷ s) ≡ neg (digits_value 0 (c ∷ s))
unfolding parse_int
parse_int-minus c s h =
    let blank : (span is_space (b'-' ∷ c ∷ s)).1 ≡ b'-' ∷ c ∷ s = unfold span in refl in
    rw (blank) (rw (span-digits (c ∷ s) h, read_digits))

-- A negative number that `String` wrote is read back.
pub parse_int-show_negative : (n : ℕ) → parse_int (b'-' ∷ show_nat n) ≡ neg n
parse_int-show_negative n = go (show_nat n) refl
  where
    go : (s : Text) → show_nat n ≡ s → parse_int (b'-' ∷ show_nat n) ≡ neg n
    go [] e = absurd (show_nat-ne-nil n e)
    go (c ∷ s) e =
        let digits : AllDigits (c ∷ s) = subst AllDigits e (All_digits-show_nat n) in
        rw e (
          parse_int-minus c s digits
          ∙ ap neg (ap (digits_value 0) (sym e) ∙ digits_value-show_nat n))
