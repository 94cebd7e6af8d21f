-- ===== src/Settings.antt =====
-- backend/ui/src/routes/Settings.tsx, by the cards of the page. The inputs for numbers are of the
-- type "number": what they hold is empty or a decimal number, which `parseInt` reads in base 10.
pub mod Access
pub mod Pool
pub mod Retention
pub mod Ssl
use pgmanager.Common.{
  ℕ, suc, zero, Integer, nan, pos, neg, Text, parse_int, Bool, true, false, ◌==◌,
}

-- `n || d` for a number `d` other than 0: NaN, 0 and -0 are falsy.
unfoldable pub or_int : Integer → ℕ → Integer
or_int nan d = pos d
or_int (pos zero) d = pos d
or_int (pos (suc n)) d = pos (suc n)
or_int (neg zero) d = pos d
or_int (neg (suc n)) d = neg (suc n)

-- `parseInt(s) || d`
unfoldable pub int_or : Text → ℕ → Integer
int_or s d = or_int (parse_int s) d

-- `===` on numbers
unfoldable pub int_eq : Integer → Integer → Bool
int_eq nan b = false
int_eq a nan = false
int_eq (pos m) (pos n) = m == n
int_eq (neg m) (neg n) = m == n
int_eq (pos zero) (neg zero) = true
int_eq (neg zero) (pos zero) = true
int_eq a b = false
