-- ===== src/Sql/Quoting.antt =====
-- What a quoted identifier of `quoteIdent` is to an SQL lexer.
use mathlib.Core.List.{append_assoc}
use pgmanager.Common.{
  ℕ, ◌≡◌, ◌≢◌, refl, Bool, true, false, Option, none, some, Text, [], ◌∷◌, ◌++◌, ◌==◌,
  if◌then◌else◌, arith,
}
use pgmanager.Sql.{double_quotes, quote_ident}

abbrev push : ℕ → Option (Text × Text) → Option (Text × Text)
push c none = none
push c (some (name, rest)) = some (c ∷ name, rest)

-- The body of a delimited identifier of SQL, up to a `"` that no second one follows; the flag says
-- that a `"` has just been read.
lex_body : Bool → Text → Option (Text × Text)
lex_body false [] = none
lex_body true [] = some ([], [])
lex_body false (c ∷ s) =
    let quoted = lex_body true s in
    let plain = push c (lex_body false s) in if c == b'"' then quoted else plain
lex_body true (c ∷ s) =
    let more = push b'"' (lex_body false s) in if c == b'"' then more else some ([], c ∷ s)

-- A delimited identifier at the start of a text: its name, and the text behind it.
unfoldable pub lex_ident : Text → Option (Text × Text)
unfolding lex_body
lex_ident [] = none
lex_ident (c ∷ s) = if c == b'"' then lex_body false s else none

-- The text does not go on with a quote.
abbrev pub IsClosed : Text → Type 0
IsClosed [] = Unit
IsClosed (c ∷ s) = c ≢ b'"'

lex_body-closed : (rest : Text) → IsClosed rest → lex_body true rest ≡ some ([], rest)
unfolding lex_body
lex_body-closed [] h = refl
lex_body-closed (c ∷ s) h = ground arith

lex_body-double_quotes :
    (name rest : Text)
    → IsClosed rest
    → lex_body false (double_quotes name ++ b'"' ∷ rest) ≡ some (name, rest)
unfolding lex_body double_quotes
lex_body-double_quotes [] rest h = lex_body-closed rest h
lex_body-double_quotes (c ∷ name) rest h = ground (arith, lex_body-double_quotes name rest h)

-- Whatever the name holds, the lexer of SQL reads the quoted identifier as exactly that name and
-- goes on with the text that follows, if this does not begin with a quote: a name cannot end its
-- identifier and add SQL of its own.
pub lex_ident-quote_ident :
    (name rest : Text) → IsClosed rest → lex_ident (quote_ident name ++ rest) ≡ some (name, rest)
unfolding lex_ident quote_ident
lex_ident-quote_ident name rest h = rw append_assoc (lex_body-double_quotes name rest h)
