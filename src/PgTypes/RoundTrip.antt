-- ===== src/PgTypes/RoundTrip.antt =====
-- backend/ui/src/lib/pg-types.ts: `parseTypeParams` reads back what `buildTypeString` wrote.
use mathlib.Core.Path.{subst}
use pgmanager.Common.{
  ℕ, zero, suc, ◌≤◌, ◌≡◌, refl, Option, none, some, [], ◌∷◌, ◌++◌, Text, text, text_eq, is_empty,
  is_digit, span, Integer, pos, show_integer, show_nat, AllDigits, show_nat-ne-nil,
  All_digits-show_nat, span-All, parse_int-show_nat,
}
use pgmanager.PgTypes.{
  max_safe_integer, TypeParams, ParsedType, build_type_string, parse_type_params, match_params,
  Groups,
}

abbrev groups : Text → Text → Option Text → Groups
groups w one two = record { word = w; param1 = some one; param2 = two }

match_params-one :
    (w : Text) (d : ℕ) (ds : Text)
    → AllDigits (d ∷ ds)
    → match_params w (b'(' ∷ (d ∷ ds) ++ b')' ∷ []) ≡ some (groups w (d ∷ ds) none)
unfolding match_params
match_params-one w d ds h = rw (span-All is_digit (d ∷ ds) (b')' ∷ []) h (unfold span in refl)) refl

match_params-two :
    (w : Text) (d e : ℕ) (ds es : Text)
    → AllDigits (d ∷ ds)
    → AllDigits (e ∷ es)
    → match_params w (b'(' ∷ (d ∷ ds) ++ (b',' ∷ (e ∷ es) ++ b')' ∷ []))
      ≡ some (groups w (d ∷ ds) (some (e ∷ es)))
unfolding match_params is_empty
match_params-two w d e ds es h k =
    rw (span-All is_digit (d ∷ ds) (b',' ∷ (e ∷ es) ++ b')' ∷ []) h (unfold span in refl))
      (rw (span-All is_digit (e ∷ es) (b')' ∷ []) k (unfold span in refl)) refl)

-- A printed number is a run of digits that is not empty.
show_nat_cons : (n : ℕ) → (d : ℕ) × (ds : Text) × (show_nat n ≡ d ∷ ds) × AllDigits (d ∷ ds)
show_nat_cons n = go (show_nat n) refl
  where
    go :
        (s : Text)
        → show_nat n ≡ s
        → (d : ℕ) × (ds : Text) × (show_nat n ≡ d ∷ ds) × AllDigits (d ∷ ds)
    go [] e = absurd (show_nat-ne-nil n e)
    go (d ∷ ds) e = (d, ds, e, subst AllDigits e (All_digits-show_nat n))

show_params-one :
    (w : Text) (n : ℕ)
    → match_params w (b'(' ∷ show_nat n ++ b')' ∷ []) ≡ some (groups w (show_nat n) none)
show_params-one w n = let (d, ds, e, h) = show_nat_cons n in rw e (match_params-one w d ds h)

show_params-two :
    (w : Text) (n m : ℕ)
    → match_params w (b'(' ∷ show_nat n ++ (b',' ∷ show_nat m ++ b')' ∷ []))
      ≡ some (groups w (show_nat n) (some (show_nat m)))
show_params-two w n m =
    let (d, ds, e, h) = show_nat_cons n in
    let (d', ds', e', h') = show_nat_cons m in rw (e, e') (match_params-two w d d' ds ds' h h')

abbrev pub params : Option Integer → Option Integer → Option Integer → TypeParams
params l p s = record { length = l; precision = p; scale = s }

abbrev pub parsed : Text → Option Integer → Option Integer → Option Integer → ParsedType
parsed b l p s = record { base = b; length = l; precision = p; scale = s }

-- The scale that is left in the text: only a positive one is written.
abbrev pub kept_scale : Option ℕ → Option Integer
kept_scale none = none
kept_scale (some zero) = none
kept_scale (some (suc s)) = some (pos (suc s))

abbrev pub given : Option ℕ → Option Integer
given none = none
given (some n) = some (pos n)

module _ (n : ℕ) (q r : Option Integer) where
  parse-varchar :
      parse_type_params (build_type_string (text "VARCHAR") (params (some (pos n)) q r))
      ≡ parsed (text "VARCHAR") (some (pos n)) none none
  unfolding parse_type_params build_type_string text text_eq span show_integer
  parse-varchar = rw (show_params-one (text "VARCHAR") n) (rw (parse_int-show_nat n))

  parse-char :
      parse_type_params (build_type_string (text "CHAR") (params (some (pos n)) q r))
      ≡ parsed (text "CHAR") (some (pos n)) none none
  unfolding parse_type_params build_type_string text text_eq span show_integer
  parse-char = rw (show_params-one (text "CHAR") n) (rw (parse_int-show_nat n))

parse-numeric :
    (n : ℕ) (q : Option Integer) (s : Option ℕ)
    → parse_type_params (build_type_string (text "NUMERIC") (params q (some (pos n)) (given s)))
      ≡ parsed (text "NUMERIC") none (some (pos n)) (kept_scale s)
unfolding parse_type_params build_type_string text text_eq span show_integer
parse-numeric n none none = rw (show_params-one (text "NUMERIC") n) (rw (parse_int-show_nat n))
parse-numeric n none (some zero) =
    rw (show_params-one (text "NUMERIC") n) (rw (parse_int-show_nat n))
parse-numeric n none (some (suc s)) =
    rw (show_params-two (text "NUMERIC") n (suc s))
      (rw (parse_int-show_nat n, parse_int-show_nat (suc s)))
parse-numeric n (some q) none = rw (show_params-one (text "NUMERIC") n) (rw (parse_int-show_nat n))
parse-numeric n (some q) (some zero) =
    rw (show_params-one (text "NUMERIC") n) (rw (parse_int-show_nat n))
parse-numeric n (some q) (some (suc s)) =
    rw (show_params-two (text "NUMERIC") n (suc s))
      (rw (parse_int-show_nat n, parse_int-show_nat (suc s)))

abbrev pub AllSafe : Option ℕ → Type 0
AllSafe none = Unit
AllSafe (some s) = s ≤ max_safe_integer

-- A type string that `buildTypeString` made of numbers up to 2^53 - 1 is taken apart into the base and the parameters that
-- belong to it: the length of a VARCHAR or CHAR (whatever precision and scale are given), and the
-- precision of a NUMERIC (whatever length is given) with its scale, if that is positive; a scale of
-- 0 is not written, and so comes back as absent.
pub parse_type_params-build_type_string :
    (n : ℕ) (l q r : Option Integer) (s : Option ℕ)
    → n ≤ max_safe_integer
    → AllSafe s
    → (parse_type_params (build_type_string (text "VARCHAR") (params (some (pos n)) q r))
        ≡ parsed (text "VARCHAR") (some (pos n)) none none)
      × (parse_type_params (build_type_string (text "CHAR") (params (some (pos n)) q r))
          ≡ parsed (text "CHAR") (some (pos n)) none none)
      × (parse_type_params (build_type_string (text "NUMERIC") (params l (some (pos n)) (given s)))
          ≡ parsed (text "NUMERIC") none (some (pos n)) (kept_scale s))
parse_type_params-build_type_string n l q r s h k =
    (parse-varchar n q r, parse-char n q r, parse-numeric n l s)
