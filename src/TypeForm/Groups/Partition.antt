-- ===== src/TypeForm/Groups/Partition.antt =====
-- The groups hold the types, each once and under its category.
use mathlib.Core.List.{Perm, perm_middle, append_assoc, append-nil}
use mathlib.Core.List.Perm
use pgmanager.Common.{
  ◌≡◌, list_laws, refl, sym, ◌∙◌, List, [], ◌∷◌, ◌++◌, Text, text_eq, text_eq_cases, or_else,
  filter_by, if◌then◌else◌, inl, inr,
}
use pgmanager.PgTypes.{PostgresTypeItem}
use pgmanager.Dict.{lookup, insert, lookup-insert}
use pgmanager.TypeForm.Groups.{category_name, add_type, group_types}

abbrev Groups : Type 0
Groups = List (Text × List PostgresTypeItem)

-- All the types of the groups, in their order.
abbrev pub members : List (Text × List PostgresTypeItem) → List PostgresTypeItem
members [] = []
members ((k, ts) ∷ m) = ts ++ members m

members-insert :
    (k : Text) (old : List PostgresTypeItem) (t : PostgresTypeItem) (m : Groups)
    → or_else (lookup k m) [] ≡ old
    → Perm (members (insert k (old ++ t ∷ []) m)) (t ∷ members m)
unfolding insert lookup
members-insert k old t [] h = rw (sym h) Perm.rfl
members-insert k old t ((j, ts) ∷ m) h = elim (text_eq_cases j k) [
  | inl (_, e) ↦
      rw (e, sym (rw e at h), append_assoc ts (t ∷ []) (members m)) (perm_middle ts (members m))
  | inr (_, e) ↦ rw e (
      Perm.trans (Perm.append_left ts (members-insert k old t m (rw e at h)))
        (perm_middle ts (members m)))
]

members-group_types :
    (acc : Groups) (ts : List PostgresTypeItem)
    → Perm (members (group_types acc ts)) (ts ++ members acc)
unfolding group_types add_type
members-group_types acc [] = Perm.rfl
members-group_types acc (t ∷ ts) = Perm.trans (members-group_types (add_type acc t) ts) (
    Perm.trans (Perm.append_left ts (members-insert (category_name t.category) _ t acc refl))
      (perm_middle ts (members acc)))

-- The types of a category, in the order of the list.
abbrev pub in_category : Text → List PostgresTypeItem → List PostgresTypeItem
in_category k ts = filter_by (λ t. text_eq (category_name t.category) k) ts

lookup-added :
    (k c : Text) (acc : Groups) (t : PostgresTypeItem) (rest : List PostgresTypeItem)
    → or_else (lookup k (insert c (or_else (lookup c acc) [] ++ t ∷ []) acc)) [] ++ rest
      ≡ or_else (lookup k acc) [] ++ (if text_eq c k then t ∷ rest else rest)
lookup-added k c acc t rest =
    let added = lookup-insert c k (or_else (lookup c acc) [] ++ t ∷ []) acc in
    elim (text_eq_cases c k) [
      | inl (p, e) ↦ rw (added, e, p) (simp list_laws)
      | inr (_, e) ↦ rw (added, e) refl
    ]

lookup-group_types :
    (k : Text) (acc : Groups) (ts : List PostgresTypeItem)
    → or_else (lookup k (group_types acc ts)) [] ≡ or_else (lookup k acc) [] ++ in_category k ts
unfolding group_types add_type
lookup-group_types k acc [] = simp list_laws
lookup-group_types k acc (t ∷ ts) =
    lookup-group_types k (add_type acc t) ts
    ∙ lookup-added k (category_name t.category) acc t (in_category k ts)

-- Grouping any list of types loses and repeats none: the types of all groups together are a
-- permutation of the list; and the group under a heading holds the types with that category, in the
-- order of the list.
pub group_types-perm :
    (ts : List PostgresTypeItem) (k : Text)
    → Perm (members (group_types [] ts)) ts
      × (or_else (lookup k (group_types [] ts)) [] ≡ in_category k ts)
unfolding lookup
group_types-perm ts k =
    (rw (append-nil ts) at (members-group_types [] ts), lookup-group_types k [] ts)
