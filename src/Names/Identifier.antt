-- ===== src/Names/Identifier.antt =====
-- Which names are accepted, said without the checks.
use mathlib.Core.Bool.{and-eq-true_iff}
use pgmanager.Common.{
  ℕ, ◌≤◌, ◌≡◌, ◌↔◌, refl, true, not, ◌&&◌, ◌⊎◌, [], ◌∷◌, Text, is_digit, is_word, trim, length, All,
  arith,
}
use pgmanager.Names.{ok, all_word, matches_name, check_name, parse_name}

-- A letter of ASCII.
abbrev pub IsLetter : ℕ → Type 0
IsLetter c = (b'a' ≤ c) × (c ≤ b'z') ⊎ (b'A' ≤ c) × (c ≤ b'Z')

abbrev pub IsStart : ℕ → Type 0
IsStart c = IsLetter c ⊎ (c ≡ b'_')

abbrev pub IsPart : ℕ → Type 0
IsPart c = IsStart c ⊎ (b'0' ≤ c) × (c ≤ b'9')

-- At most 63 units, the first a letter or an underscore, the others letters, digits or underscores.
abbrev pub IsIdentifier : Text → Type 0
IsIdentifier [] = ⊥
IsIdentifier (c ∷ s) = (length (c ∷ s) ≤ 63) × IsStart c × All IsPart s

is_word→IsPart : (c : ℕ) → is_word c ≡ true → IsPart c
is_word→IsPart c h = ground arith

IsPart→is_word : (c : ℕ) → IsPart c → is_word c ≡ true
IsPart→is_word c h = ground arith

is_start→IsStart : (c : ℕ) → (is_word c && not (is_digit c)) ≡ true → IsStart c
is_start→IsStart c h = ground arith

IsStart→is_start : (c : ℕ) → IsStart c → (is_word c && not (is_digit c)) ≡ true
IsStart→is_start c h = ground arith

all_word_sound : (s : Text) → all_word s ≡ true → All IsPart s
unfolding all_word
all_word_sound [] h = tt
all_word_sound (c ∷ s) h =
    let (here, later) = (and-eq-true_iff _ _).0 h in (is_word→IsPart c here, all_word_sound s later)

all_word_complete : (s : Text) → All IsPart s → all_word s ≡ true
unfolding all_word
all_word_complete [] h = refl
all_word_complete (c ∷ s) h = rw (IsPart→is_word c h.0) (all_word_complete s h.1)

check_name_sound : (s t : Text) → check_name s ≡ ok t → (t ≡ s) × IsIdentifier s
unfolding check_name matches_name
check_name_sound [] t h = cc
check_name_sound (c ∷ s) t h =
    let start : (is_word c && not (is_digit c)) ≡ true = ground arith in
    let rest : all_word s ≡ true = ground arith in
    (ground arith, (ground arith, is_start→IsStart c start, all_word_sound s rest))

check_name_complete : (s : Text) → IsIdentifier s → check_name s ≡ ok s
unfolding check_name matches_name
check_name_complete [] h = absurd h
check_name_complete (c ∷ s) h =
    let start = IsStart→is_start c h.1 in
    let rest = all_word_complete s h.2 in ground (arith, start, rest, h.0)

-- A name is accepted exactly if, without the blanks at its ends, it is an identifier of at most 63
-- units; what is accepted is the name without those blanks.
pub parse_name_iff :
    (raw t : Text) → (parse_name raw ≡ ok t) ↔ ((t ≡ trim raw) × IsIdentifier (trim raw))
unfolding parse_name
parse_name_iff raw t =
    (check_name_sound (trim raw) t, λ h. rw (h.0) (check_name_complete (trim raw) h.1))
