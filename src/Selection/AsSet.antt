-- ===== src/Selection/AsSet.antt =====
-- The selected databases of DbMultiSelect as a set: the order of the list is forgotten by a quotient.
use mathlib.Core.Quot
use mathlib.Core.Quot.{Quot, Quot-set}
use pgmanager.Common.{
  ◌≡◌, false, not, List, [], ◌∷◌, Text, text_eq, text_eq_refl, text_rules, arith, if◌then◌else◌,
}
use pgmanager.Selection.{mem, without, click_badge}
use pgmanager.Selection.Sets.{Unrepeated, mem-append}
use pgmanager.Selection.Picked.{click_badge-Unrepeated}

-- Two lists hold the same names.
abbrev pub SameNames : List Text → List Text → Type 0
SameNames xs ys = (y : Text) → mem y xs ≡ mem y ys

-- Lists without repetition, such as DbMultiSelect keeps, and when they are the same set: two of them
-- that hold the same names differ in the order alone.
abbrev pub Chosen : Type 0
Chosen = (xs : List Text) × Unrepeated xs

abbrev pub SameChosen : Chosen → Chosen → Type 0
SameChosen p q = SameNames p.0 q.0

abbrev pub NameSet : Type 0
NameSet = Quot SameChosen

abbrev pub click : Text → Chosen → Chosen
click x p = (click_badge x p.0, click_badge-Unrepeated x p.0 p.1)

mem-without :
    (x y : Text) (xs : List Text) → mem y (without x xs) ≡ (if text_eq y x then false else mem y xs)
mem-without x y [] = ground arith
mem-without x y (z ∷ xs) = grind (text_rules, mem-without x y xs)

-- A click on a badge changes whether its name is in the list, and of no other name.
pub mem-click_badge :
    (x y : Text) (xs : List Text)
    → mem y (click_badge x xs) ≡ (if text_eq y x then not (mem x xs) else mem y xs)
unfolding click_badge
mem-click_badge x y xs = grind (text_rules, mem-without, mem-append)

pub click_badge-SameNames :
    (x : Text) (xs ys : List Text)
    → SameNames xs ys
    → SameNames (click_badge x xs) (click_badge x ys)
click_badge-SameNames x xs ys h y = rw (mem-click_badge x y xs, mem-click_badge x y ys, h x, h y)

-- What a click does to the set.
unfoldable pub toggled : Text → NameSet → NameSet
toggled x =
    Quot.lift Quot-set (λ p. Quot.mk (click x p))
      (λ p q h. Quot.sound (click_badge-SameNames x p.0 q.0 h))

-- A second click on a badge takes the first one back.
pub toggled_twice : (x : Text) (s : NameSet) → toggled x (toggled x s) ≡ s
unfolding toggled
toggled_twice x =
    Quot.ind (λ s. Quot-set _ _)
      (λ p. Quot.sound (λ y. grind (text_rules, mem-click_badge, text_eq_refl x)))
