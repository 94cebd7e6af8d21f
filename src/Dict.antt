-- ===== src/Dict.antt =====
-- JavaScript objects that are used as dictionaries: the properties in the order of their insertion.
use pgmanager.Common.{
  ◌≡◌, ◌≢◌, refl, ◌∙◌, ap, All, map, any, Option, none, some, List, [], ◌∷◌, Text, text_eq,
  text_eq_refl, text_eq_cases, text_rules, text_eq_iff, if◌then◌else◌, inl, inr, arith,
}

module _ {ℓ} {V : Type ℓ} where
  -- `o[k]`, which is undefined for a missing key
  unfoldable pub lookup : Text → List (Text × V) → Option V
  lookup k [] = none
  lookup k ((j, v) ∷ m) = let rest = lookup k m in if text_eq j k then some v else rest

  -- `o[k] = v`, and `{ ...o, [k]: v }`
  unfoldable pub insert : Text → V → List (Text × V) → List (Text × V)
  insert k v [] = (k, v) ∷ []
  insert k v ((j, w) ∷ m) =
      let rest = insert k v m in if text_eq j k then (j, v) ∷ m else (j, w) ∷ rest

  pub lookup-insert :
      (k j : Text) (v : V) (m : List (Text × V))
      → lookup j (insert k v m) ≡ (if text_eq k j then some v else lookup j m)
  unfolding lookup insert
  lookup-insert k j v [] = refl
  lookup-insert k j v ((i, w) ∷ m) = grind (text_rules, lookup-insert k j v m)

  -- The assignments `o[k] = v` of a loop, in their order.
  unfoldable pub insert_all : List (Text × V) → List (Text × V) → List (Text × V)
  unfolding insert
  insert_all m [] = m
  insert_all m ((k, v) ∷ ps) = insert_all (insert k v m) ps

  abbrev pub Avoids : Text → List (Text × V) → Type 0
  Avoids k ps = All (λ p. p.0 ≢ k) ps

  abbrev pub DistinctKeys : List (Text × V) → Type 0
  DistinctKeys [] = Unit
  DistinctKeys ((k, v) ∷ ps) = Avoids k ps × DistinctKeys ps

  pub lookup-insert_all_ne :
      (k : Text) (m ps : List (Text × V)) → Avoids k ps → lookup k (insert_all m ps) ≡ lookup k m
  unfolding insert_all
  lookup-insert_all_ne k m [] h = refl
  lookup-insert_all_ne k m ((j, v) ∷ ps) h = elim (text_eq_cases j k) [
    | inl (e, _) ↦ absurd (h.0 e)
    | inr (_, e) ↦ lookup-insert_all_ne k (insert j v m) ps h.1 ∙ (lookup-insert j k v m ∙ rw e)
  ]

  -- Each key of a run of assignments to distinct keys has its value behind it.
  pub lookup-insert_all :
      (m ps : List (Text × V))
      → DistinctKeys ps
      → All (λ p. lookup p.0 (insert_all m ps) ≡ some p.1) ps
  unfolding insert_all
  lookup-insert_all m [] h = tt
  lookup-insert_all m ((k, v) ∷ ps) h = (
    lookup-insert_all_ne k (insert k v m) ps h.0 ∙ (lookup-insert k k v m ∙ rw (text_eq_refl k)),
    lookup-insert_all (insert k v m) ps h.1,
  )

  -- `Object.fromEntries` on entries whose values depend on their keys alone.
  pub lookup-insert_all_by {κ} :
      {A : Type κ} (key : A → Text) (f : Text → V) (x : Text) (m : List (Text × V)) (items : List A)
      → lookup x (insert_all m (map (λ a. (key a, f (key a))) items))
        ≡ (if any (text_eq x) (map key items) then some (f x) else lookup x m)
  unfolding insert_all
  lookup-insert_all_by key f x m [] = refl
  lookup-insert_all_by key f x m (a ∷ items) =
      let k = key a in
      let rest = lookup-insert_all_by key f x (insert k (f k) m) items in
      elim (text_eq_cases x k) [
        | inl (e, q) ↦ ground (arith, rest, lookup-insert k x (f k) m, text_eq_iff k x, ap f e)
        | inr (n, e) ↦ ground (arith, rest, lookup-insert k x (f k) m, text_eq_iff k x)
      ]
