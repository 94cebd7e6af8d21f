-- ===== src/Names.antt =====
-- The names that the forms accept: `CreateDatabaseSchema`, and the `username` of
-- `CreateUserRequestSchema`, in backend/ui/src/lib/schemas.ts.
pub mod Identifier
use pgmanager.Common.{
  ℕ, Bool, true, false, not, ◌&&◌, List, [], ◌∷◌, ◌++◌, Text, text, is_digit, is_word, trim, length,
  ltb, if◌then◌else◌,
}

-- The first entry of `result.error.errors`, by the check that made it.
pub data NameError : Type 0 where
  required too_long bad_chars : NameError

-- The messages, for a field that they call `field`.
unfoldable pub message : Text → NameError → Text
message field required = field ++ text " is required"
message field too_long = field ++ text " too long (max 63 characters)"
message field bad_chars = text "must start with letter or underscore, alphanumeric only"

pub data Checked : Type 0 where
  ok : Text → Checked
  bad : NameError → Checked

all_word : Text → Bool
all_word [] = true
all_word (c ∷ s) = is_word c && all_word s

-- `/^[a-zA-Z_][a-zA-Z0-9_]*$/`
matches_name : Text → Bool
unfolding all_word
matches_name [] = false
matches_name (c ∷ s) = is_word c && not (is_digit c) && all_word s

check_name : Text → Checked
unfolding matches_name
check_name s =
    if ltb (length s) 1
    then bad required
    else if ltb 63 (length s)
    then bad too_long
    else if matches_name s
    then ok s
    else bad bad_chars

-- `.trim().min(1, …).max(63, …).regex(…)`: the value, or the first error.
unfoldable pub parse_name : Text → Checked
unfolding check_name
parse_name raw = check_name (trim raw)
