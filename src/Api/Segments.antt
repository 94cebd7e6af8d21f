-- ===== src/Api/Segments.antt =====
-- A path as a server reads it: cut at the slashes.
use pgmanager.Common.{
  ℕ, ◌≡◌, refl, Bool, true, not, ◌&&◌, List, [], ◌∷◌, ◌++◌, Text, ◌==◌, if◌then◌else◌, arith,
}

abbrev pub push : ℕ → List Text → List Text
push c [] = (c ∷ []) ∷ []
push c (w ∷ ws) = (c ∷ w) ∷ ws

abbrev pub cut : ℕ → List Text → List Text
cut c ws = if c == b'/' then [] ∷ ws else push c ws

unfoldable pub segments : Text → List Text
segments [] = [] ∷ []
segments (c ∷ s) = cut c (segments s)

abbrev pub has_no_slash : Text → Bool
has_no_slash [] = true
has_no_slash (c ∷ s) = not (c == b'/') && has_no_slash s

pub segments_end : (w : Text) → has_no_slash w ≡ true → segments w ≡ w ∷ []
unfolding segments
segments_end [] h = refl
segments_end (c ∷ w) h = ground (arith, segments_end w)

pub segments_slash :
    (w t : Text) → has_no_slash w ≡ true → segments (w ++ b'/' ∷ t) ≡ w ∷ segments t
unfolding segments
segments_slash [] t h = refl
segments_slash (c ∷ w) t h = ground (arith, segments_slash w t)
