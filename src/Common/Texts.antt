-- ===== src/Common/Texts.antt =====
-- JavaScript strings as lists of UTF-16 code units, with the string methods that the interface
-- uses. Letter case is modelled for ASCII: `toUpperCase` and `toLowerCase` leave other units alone.
use Prim.Native.Nat.{ℕ, ◌+◌, ◌-◌}
use Prim.Native.Char.{code}
use Prim.Native.String.{String}
use mathlib.Core.Path.{◌≡◌, refl}
use mathlib.Core.Logic.{◌≢◌, ◌↔◌, ◌⊎◌, inl, inr}
use mathlib.Core.Bool.{Bool, true, false, ◌&&◌, ◌||◌}
use mathlib.Core.List.{List, [], ◌∷◌, map, reverse}
use native.Mathlib.Omega.{arith}
use pgmanager.Common.Tests.{leb, ◌==◌, if◌then◌else◌, Bool-cases}

abbrev pub Text : Type 0
Text = List ℕ

-- The code units of an ASCII literal.
abbrev pub codes : String → Text
codes String.[] = []
codes (String.◌∷◌ c s) = code c ∷ codes s

-- A string literal of the source.
unfoldable pub text : String → Text
text s = codes s

-- `===` on strings.
unfoldable pub text_eq : Text → Text → Bool
text_eq [] [] = true
text_eq [] (d ∷ t) = false
text_eq (c ∷ s) [] = false
text_eq (c ∷ s) (d ∷ t) = c == d && text_eq s t

text_eq_sound : (s t : Text) → text_eq s t ≡ true → s ≡ t
unfolding text_eq
text_eq_sound [] [] h = refl
text_eq_sound [] (d ∷ t) h = cc
text_eq_sound (c ∷ s) [] h = cc
text_eq_sound (c ∷ s) (d ∷ t) h = ground (arith, text_eq_sound s t)

pub text_eq_refl : (s : Text) → text_eq s s ≡ true
unfolding text_eq
text_eq_refl [] = refl
text_eq_refl (c ∷ s) = ground (arith, text_eq_refl s)

pub text_eq_iff : (s t : Text) → (text_eq s t ≡ true) ↔ (s ≡ t)
text_eq_iff s t = (text_eq_sound s t, λ e. rw e (text_eq_refl t))

pub text_eq_cases : (s t : Text) → (s ≡ t) × (text_eq s t ≡ true) ⊎ (s ≢ t) × (text_eq s t ≡ false)
text_eq_cases s t = elim (Bool-cases (text_eq s t)) [
  | inl e ↦ inl (text_eq_sound s t e, e)
  | inr e ↦ inr (λ p. let q : text_eq s t ≡ true = (text_eq_iff s t).1 p in cc, e)
]

-- What the tactics read of tests of texts.
pub ruleset text_rules = (arith, text_eq_iff)

-- `!s`
unfoldable pub is_empty : Text → Bool
is_empty [] = true
is_empty (c ∷ s) = false

abbrev pub is_digit : ℕ → Bool
is_digit c = leb b'0' c && leb c b'9'

abbrev is_upper : ℕ → Bool
is_upper c = leb b'A' c && leb c b'Z'

abbrev is_lower : ℕ → Bool
is_lower c = leb b'a' c && leb c b'z'

-- `\w`
abbrev pub is_word : ℕ → Bool
is_word c = is_digit c || is_upper c || is_lower c || c == b'_'

-- White space for `trim`: the ASCII blanks, and the ones of the Latin and Unicode blocks.
abbrev pub is_space : ℕ → Bool
is_space c =
    leb 9 c && leb c 13
    || c == 32
    || c == 0xa0
    || c == 0x1680
    || leb 0x2000 c && leb c 0x200a
    || c == 0x2028
    || c == 0x2029
    || c == 0x202f
    || c == 0x205f
    || c == 0x3000
    || c == 0xfeff

abbrev pub upper_char : ℕ → ℕ
upper_char c = if is_lower c then c - 32 else c

abbrev pub lower_char : ℕ → ℕ
lower_char c = if is_upper c then c + 32 else c

unfoldable pub to_upper : Text → Text
to_upper s = map upper_char s

unfoldable pub to_lower : Text → Text
to_lower s = map lower_char s

-- `s.startsWith(p)`
unfoldable pub starts_with_text : Text → Text → Bool
starts_with_text s [] = true
starts_with_text [] (d ∷ p) = false
starts_with_text (c ∷ s) (d ∷ p) = c == d && starts_with_text s p

-- `s.includes(p)`
unfoldable pub text_includes : Text → Text → Bool
unfolding starts_with_text
text_includes [] p = starts_with_text [] p
text_includes (c ∷ s) p = starts_with_text (c ∷ s) p || text_includes s p

trim_start : Text → Text
trim_start [] = []
trim_start (c ∷ s) = let rest = trim_start s in if is_space c then rest else c ∷ s

-- `s.trim()`
unfoldable pub trim : Text → Text
unfolding trim_start
trim s = reverse (trim_start (reverse (trim_start s)))
