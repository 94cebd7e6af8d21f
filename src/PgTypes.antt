-- ===== src/PgTypes.antt =====
-- backend/ui/src/lib/pg-types.ts: the PostgreSQL types that the forms offer, and the functions that
-- build a type string from its parameters, take one apart, and find its category.
pub mod RoundTrip
pub mod Categories
use pgmanager.Common.{
  ℕ, zero, suc, ◌≡◌, refl, Bool, true, false, not, ◌&&◌, ◌||◌, Option, none, some, List, [], ◌∷◌,
  ◌++◌, String, Text, text, text_eq, is_empty, starts_with_text, to_upper, is_word, is_digit, span,
  Integer, nan, pos, neg, show_integer, parse_int, digits_value, if◌then◌else◌, ◌==◌,
}

-- The strings that the source uses as categories; `other` is the "Other" of `getTypeCategory`.
pub data Category : Type 0 where
  auto_increment numeric string boolean date_time special json binary network other : Category

pub record PostgresTypeItem : Type 0 where
  pub label : Text
  pub value : Text
  pub category : Category
  pub has_length : Bool
  pub has_precision : Bool

abbrev item : String → Category → PostgresTypeItem
item s c = record {
  label = text s;
  value = text s;
  category = c;
  has_length = false;
  has_precision = false;
}

abbrev item_length : String → Category → PostgresTypeItem
item_length s c = record {
  label = text s;
  value = text s;
  category = c;
  has_length = true;
  has_precision = false;
}

abbrev item_precision : String → Category → PostgresTypeItem
item_precision s c = record {
  label = text s;
  value = text s;
  category = c;
  has_length = false;
  has_precision = true;
}

unfoldable pub postgresql_types : List PostgresTypeItem
postgresql_types =
    item "SERIAL" auto_increment
    ∷ item "BIGSERIAL" auto_increment
    ∷ item "SMALLSERIAL" auto_increment
    ∷ item "INTEGER" numeric
    ∷ item "BIGINT" numeric
    ∷ item "SMALLINT" numeric
    ∷ item_precision "NUMERIC" numeric
    ∷ item "REAL" numeric
    ∷ item "DOUBLE PRECISION" numeric
    ∷ item "MONEY" numeric
    ∷ item "TEXT" string
    ∷ item_length "VARCHAR" string
    ∷ item_length "CHAR" string
    ∷ item "BOOLEAN" boolean
    ∷ item "DATE" date_time
    ∷ item "TIME" date_time
    ∷ item "TIMESTAMP" date_time
    ∷ item "TIMESTAMPTZ" date_time
    ∷ item "UUID" special
    ∷ item "JSON" json
    ∷ item "JSONB" json
    ∷ item "BYTEA" binary
    ∷ item "INET" network
    ∷ item "CIDR" network
    ∷ item "MACADDR" network
    ∷ item "XML" special
    ∷ item "ARRAY" special
    ∷ []

-- `Number.MAX_SAFE_INTEGER`: up to it `String` writes an integer in decimal, as `show_integer` does.
-- What follows describes the source for parameters up to it; a larger one is a floating-point number,
-- which may be rounded and is written with an exponent from 10^21 on.
abbrev pub max_safe_integer : ℕ
max_safe_integer = 9007199254740991

-- An absent field is `none`.
pub record TypeParams : Type 0 where
  pub length : Option Integer
  pub precision : Option Integer
  pub scale : Option Integer

-- `scale > 0`, which is false for NaN.
abbrev pub is_positive : Integer → Bool
is_positive (pos (suc n)) = true
is_positive _ = false

-- `NUMERIC(p,s)` or `NUMERIC(p)`
numeric_string : Integer → Option Integer → Text
numeric_string p none = text "NUMERIC(" ++ (show_integer p ++ text ")")
numeric_string p (some s) =
    if is_positive s
    then text "NUMERIC(" ++ (show_integer p ++ (text "," ++ (show_integer s ++ text ")")))
    else text "NUMERIC(" ++ (show_integer p ++ text ")")

-- The second `if` of `buildTypeString`, and its last line.
build_numeric : Text → TypeParams → Text
unfolding numeric_string
build_numeric base params = elim params.precision [
  | none ↦ base
  | some p ↦ if text_eq base (text "NUMERIC") then numeric_string p params.scale else base
]

unfoldable pub build_type_string : Text → TypeParams → Text
unfolding build_numeric
build_type_string base params = elim params.length [
  | none ↦ build_numeric base params
  | some n ↦
      if text_eq base (text "VARCHAR") || text_eq base (text "CHAR")
      then base ++ (text "(" ++ (show_integer n ++ text ")"))
      else build_numeric base params
]

pub record ParsedType : Type 0 where
  pub base : Text
  pub length : Option Integer
  pub precision : Option Integer
  pub scale : Option Integer

-- The groups of the regular expression; the first is always there in a match.
record Groups : Type 0 where
  word : Text
  param1 : Option Text
  param2 : Option Text

abbrev is_close : Text → Bool
is_close [] = false
is_close (c ∷ []) = c == b')'
is_close (c ∷ d ∷ s) = false

-- `)` or `,(\d+))` after the first number, up to the end.
match_second : Text → Text → Text × Text → Option Groups
match_second w one (two, rest) =
    if is_close rest && not (is_empty two)
    then some (record { word = w; param1 = some one; param2 = some two })
    else none

match_rest : Text → Text → Text → Option Groups
unfolding match_second
match_rest w one [] = none
match_rest w one (c ∷ s) =
    if is_close (c ∷ s)
    then some (record { word = w; param1 = some one; param2 = none })
    else if c == b','
    then match_second w one (span is_digit s)
    else none

match_first : Text → Text × Text → Option Groups
unfolding match_rest
match_first w ([], rest) = none
match_first w (d ∷ ds, rest) = match_rest w (d ∷ ds) rest

match_params : Text → Text → Option Groups
unfolding match_first
match_params w [] = some (record { word = w; param1 = none; param2 = none })
match_params w (c ∷ s) = if c == b'(' then match_first w (span is_digit s) else none

match_word : Text × Text → Option Groups
unfolding match_params
match_word ([], rest) = none
match_word (c ∷ cs, rest) = match_params (c ∷ cs) rest

-- `/^(\w+)(?:\((\d+)(?:,(\d+))?\))?$/`. No unit that may follow `\w+` or `\d+` is one of them, so the
-- longest runs are the only ones to try.
match_type : Text → Option Groups
unfolding match_word
match_type type = match_word (span is_word type)

param_value : Option Text → Option Integer
param_value none = none
param_value (some s) = some (parse_int s)

abbrev pub plain : Text → ParsedType
plain base = record { base = base; length = none; precision = none; scale = none }

parsed_groups : Text → Groups → ParsedType
unfolding param_value
parsed_groups type g =
    if text_eq g.word (text "VARCHAR") || text_eq g.word (text "CHAR")
    then record { base = g.word; length = param_value g.param1; precision = none; scale = none }
    else if text_eq g.word (text "NUMERIC")
    then record {
      base = g.word;
      length = none;
      precision = param_value g.param1;
      scale = param_value g.param2;
    }
    else plain type

-- `if (!match) return { base: type }`, and what follows it.
parsed_match : Text → Option Groups → ParsedType
unfolding parsed_groups
parsed_match type none = plain type
parsed_match type (some g) = parsed_groups type g

unfoldable pub parse_type_params : Text → ParsedType
unfolding match_type parsed_match
parse_type_params type = parsed_match type (match_type type)

-- One round of the loop of `getTypeCategory`.
abbrev fits : Text → PostgresTypeItem → Bool
fits upper t = text_eq upper t.value || starts_with_text upper (t.value ++ text "(")

category_from : Text → List PostgresTypeItem → Category
category_from upper [] = other
category_from upper (t ∷ ts) =
    let rest = category_from upper ts in if fits upper t then t.category else rest

unfoldable pub get_type_category : Text → Category
unfolding category_from
get_type_category type = category_from (to_upper type) postgresql_types
