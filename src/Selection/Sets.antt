-- ===== src/Selection/Sets.antt =====
-- Lists without repetition, which stand for sets.
use pgmanager.Common.{
  ◌≡◌, ◌≤◌, ◌<◌, ◌+◌, refl, Bool, true, false, ◌||◌, List, [], ◌∷◌, ◌++◌, Text, text_eq,
  text_eq_cases, text_eq_refl, filter_by, length, length-append, Bool-cases, inl, inr, arith,
}
use pgmanager.Selection.{mem, add, set_from}

-- No entry is repeated.
abbrev pub Unrepeated : List Text → Type 0
Unrepeated [] = Unit
Unrepeated (x ∷ xs) = (mem x xs ≡ false) × Unrepeated xs

mem-filter :
    (p : Text → Bool) (y : Text) (xs : List Text)
    → mem y xs ≡ false
    → mem y (filter_by p xs) ≡ false
mem-filter p y [] h = refl
mem-filter p y (x ∷ xs) h = ground (arith, mem-filter p y xs)

pub Unrepeated-filter :
    (p : Text → Bool) (xs : List Text) → Unrepeated xs → Unrepeated (filter_by p xs)
Unrepeated-filter p [] h = tt
Unrepeated-filter p (x ∷ xs) h =
    ground (arith, h.0, mem-filter p x xs h.0, Unrepeated-filter p xs h.1)

pub mem-append : (y x : Text) (xs : List Text) → mem y (xs ++ x ∷ []) ≡ (mem y xs || text_eq y x)
mem-append y x [] = ground arith
mem-append y x (z ∷ xs) = ground (arith, mem-append y x xs)

pub text_eq_sym : (x y : Text) → text_eq x y ≡ false → text_eq y x ≡ false
text_eq_sym x y h = elim (text_eq_cases y x) [
  | inl (e, _) ↦ absurd (ground (arith, text_eq_refl x, rw e at h))
  | inr (_, e) ↦ e
]

pub Unrepeated-append :
    (x : Text) (xs : List Text) → mem x xs ≡ false → Unrepeated xs → Unrepeated (xs ++ x ∷ [])
Unrepeated-append x [] m h = (refl, tt)
Unrepeated-append x (z ∷ xs) m h = (
  ground (arith, h.0, mem-append z x xs, text_eq_sym x z),
  Unrepeated-append x xs (ground arith) h.1,
)

pub Unrepeated-add : (x : Text) (xs : List Text) → Unrepeated xs → Unrepeated (add x xs)
Unrepeated-add x xs h = elim (Bool-cases (mem x xs)) [
  | inl e ↦ rw e h
  | inr e ↦ rw e (Unrepeated-append x xs e h)
]

pub Unrepeated-set_from : (acc xs : List Text) → Unrepeated acc → Unrepeated (set_from acc xs)
unfolding set_from
Unrepeated-set_from acc [] h = h
Unrepeated-set_from acc (x ∷ xs) h = Unrepeated-set_from (add x acc) xs (Unrepeated-add x acc h)

-- How a list without repetition comes about.
pub ruleset unrepeated_rules =
    (Unrepeated-filter, Unrepeated-append, Unrepeated-add, Unrepeated-set_from)

length-add : (x : Text) (xs : List Text) → length (add x xs) ≤ length xs + 1
length-add x xs = elim (Bool-cases (mem x xs)) [
  | inl e ↦ rw e (omega arith)
  | inr e ↦ rw e (omega (arith, length-append {0} xs (x ∷ [])))
]

length-set_from : (acc xs : List Text) → length (set_from acc xs) ≤ length acc + length xs
unfolding set_from
length-set_from acc [] = omega arith
length-set_from acc (x ∷ xs) = omega (arith, length-set_from (add x acc) xs, length-add x acc)

mem-add : (x y : Text) (xs : List Text) → mem x xs ≡ true → mem x (add y xs) ≡ true
mem-add x y xs h = elim (Bool-cases (mem y xs)) [
  | inl e ↦ rw e h
  | inr e ↦ rw e (rw (mem-append x y xs, h))
]

mem-add-same : (x : Text) (xs : List Text) → mem x (add x xs) ≡ true
mem-add-same x xs = elim (Bool-cases (mem x xs)) [
  | inl e ↦ rw e e
  | inr e ↦ rw e (rw (mem-append x x xs, e, text_eq_refl x))
]

length-set_from_known :
    (x : Text) (acc xs : List Text)
    → mem x acc ≡ true
    → mem x xs ≡ true
    → length (set_from acc xs) < length acc + length xs
unfolding set_from
length-set_from_known x acc [] h k = absurd (ground (arith, k))
length-set_from_known x acc (y ∷ ys) h k = elim (text_eq_cases x y) [
  | inl (e, _) ↦ rw (rw e at h) (omega (arith, length-set_from acc ys))
  | inr (_, e) ↦
      let rec = length-set_from_known x (add y acc) ys (mem-add x y acc h) (rw e at k) in
      omega (arith, rec, length-add y acc)
]

-- Some entry is repeated.
abbrev pub has_repetition : List Text → Bool
has_repetition [] = false
has_repetition (x ∷ xs) = mem x xs || has_repetition xs

-- A list with a repetition makes a smaller set.
pub length-set_from_repeated :
    (acc xs : List Text)
    → has_repetition xs ≡ true
    → length (set_from acc xs) < length acc + length xs
unfolding set_from
length-set_from_repeated acc [] h = absurd (ground (arith, h))
length-set_from_repeated acc (x ∷ xs) h = elim (Bool-cases (mem x xs)) [
  | inl e ↦
      let smaller = length-set_from_known x (add x acc) xs (mem-add-same x acc) e in
      omega (arith, smaller, length-add x acc)
  | inr e ↦
      let smaller = length-set_from_repeated (add x acc) xs (rw e at h) in
      omega (arith, smaller, length-add x acc)
]
