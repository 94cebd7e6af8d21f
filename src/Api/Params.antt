-- ===== src/Api/Params.antt =====
-- The query parameters of `fetchData`, read back by a server that takes an absent one for its
-- default, 0 or the empty text.
use pgmanager.Common.{
  ℕ, zero, suc, ◌≡◌, refl, false, ◌==◌, arith, Option, none, some, List, [], ◌∷◌, Text, text,
  text_eq, is_empty, parse_int, Integer, pos, parse_int-show_nat,
}
use pgmanager.Dict.{lookup}
use pgmanager.Api.Data.{FetchOptions, search_params}

abbrev natural_of : Integer → ℕ
natural_of (pos n) = n
natural_of _ = 0

abbrev read_number : Option Text → ℕ
read_number none = 0
read_number (some s) = natural_of (parse_int s)

abbrev read_text : Option Text → Text
read_text none = []
read_text (some s) = s

pub read_params : List (Text × Text) → FetchOptions
read_params params = record {
  limit = read_number (lookup (text "limit") params);
  offset = read_number (lookup (text "offset") params);
  sort = read_text (lookup (text "sort") params);
  order = read_text (lookup (text "order") params);
}

abbrev options : ℕ → ℕ → Text → Text → FetchOptions
options limit offset sort order = record {
  limit = limit;
  offset = offset;
  sort = sort;
  order = order;
}

suc_ne_zero : (n : ℕ) → (suc n == 0) ≡ false
suc_ne_zero n = ground arith

read_options :
    (l o : ℕ) (s d : Text) → read_params (search_params (options l o s d)) ≡ options l o s d
unfolding read_params search_params lookup text text_eq is_empty
read_options zero zero [] [] = refl
read_options zero zero [] (e ∷ d) = refl
read_options zero zero (c ∷ s) [] = refl
read_options zero zero (c ∷ s) (e ∷ d) = refl
read_options zero (suc o) [] [] = rw (suc_ne_zero o) (rw (parse_int-show_nat (suc o)) refl)
read_options zero (suc o) [] (e ∷ d) = rw (suc_ne_zero o) (rw (parse_int-show_nat (suc o)) refl)
read_options zero (suc o) (c ∷ s) [] = rw (suc_ne_zero o) (rw (parse_int-show_nat (suc o)) refl)
read_options zero (suc o) (c ∷ s) (e ∷ d) =
    rw (suc_ne_zero o) (rw (parse_int-show_nat (suc o)) refl)
read_options (suc l) zero [] [] = rw (suc_ne_zero l) (rw (parse_int-show_nat (suc l)) refl)
read_options (suc l) zero [] (e ∷ d) = rw (suc_ne_zero l) (rw (parse_int-show_nat (suc l)) refl)
read_options (suc l) zero (c ∷ s) [] = rw (suc_ne_zero l) (rw (parse_int-show_nat (suc l)) refl)
read_options (suc l) zero (c ∷ s) (e ∷ d) =
    rw (suc_ne_zero l) (rw (parse_int-show_nat (suc l)) refl)
read_options (suc l) (suc o) [] [] =
    rw (suc_ne_zero l, suc_ne_zero o)
      (rw (parse_int-show_nat (suc l), parse_int-show_nat (suc o)) refl)
read_options (suc l) (suc o) [] (e ∷ d) =
    rw (suc_ne_zero l, suc_ne_zero o)
      (rw (parse_int-show_nat (suc l), parse_int-show_nat (suc o)) refl)
read_options (suc l) (suc o) (c ∷ s) [] =
    rw (suc_ne_zero l, suc_ne_zero o)
      (rw (parse_int-show_nat (suc l), parse_int-show_nat (suc o)) refl)
read_options (suc l) (suc o) (c ∷ s) (e ∷ d) =
    rw (suc_ne_zero l, suc_ne_zero o)
      (rw (parse_int-show_nat (suc l), parse_int-show_nat (suc o)) refl)

-- A server that reads the limit, the offset, the column and the direction of the order from the query
-- parameters that are set, with 0 or the empty text for one that is absent, reads what `fetchData` was
-- called with.
pub read_params-search_params : (p : FetchOptions) → read_params (search_params p) ≡ p
read_params-search_params p = read_options p.limit p.offset p.sort p.order
