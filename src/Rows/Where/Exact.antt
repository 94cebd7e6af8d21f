-- ===== src/Rows/Where/Exact.antt =====
-- Which rows, as the interface has received them, the conditions of a row single out. What the server
-- makes of them is not modelled: it sends times of day cut to seconds, and refuses the names of some
-- columns.
use mathlib.Core.Path.{subst}
use pgmanager.Common.{
  ◌≡◌, ◌≢◌, ◌↔◌, refl, sym, false, Option, none, some, List, [], ◌∷◌, Text, is_empty, length, All,
  text_eq, text_eq_refl, text_eq_cases, if◌then◌else◌, inl, inr, arith,
}
use pgmanager.Schemas.{Value, null, bool, num, str, compound, Operator, eq, is_null, WhereCondition}
use pgmanager.Rows.Where.{first, rest, row_condition, build_row_where}

-- The columns of a table have names, and no two the same.
abbrev pub AreNames : List Text → Type 0
AreNames [] = Unit
AreNames (c ∷ cs) = (is_empty c ≡ false) × All (λ d. d ≢ c) cs × AreNames cs

module _ {N : Type 0} where
  -- The value of the column of that name in a row of the table.
  pub cell : List Text → List (Value N) → Text → Option (Value N)
  cell [] row name = none
  cell (c ∷ cs) row name =
      let later = cell cs (rest row) name in if text_eq c name then first row else later

  -- What the conditions that the interface makes say of values as it has received them: an equation
  -- holds of a value that is there and is not null.
  abbrev pub Means : Operator → Option (Value N) → Option (Value N) → Type 0
  Means is_null v found = found ≡ some null
  Means eq v found = (v ≡ found) × (found ≢ none) × (found ≢ some null)
  Means _ v found = ⊥

  abbrev pub Holds : List Text → List (Value N) → WhereCondition N → Type 0
  Holds columns row w = Means w.operator w.value (cell columns row w.column)

  row-Means :
      (name : Text) (v : Value N)
      → Means (row_condition name (some v)).operator (row_condition name (some v)).value (some v)
  unfolding row_condition
  row-Means name null = refl
  row-Means name (bool b) = (refl, λ e. cc, λ e. cc)
  row-Means name (num b) = (refl, λ e. cc, λ e. cc)
  row-Means name (str b) = (refl, λ e. cc, λ e. cc)
  row-Means name (compound b t) = (refl, λ e. cc, λ e. cc)

  row-Means_eq :
      (name : Text) (v w : Value N)
      → Means (row_condition name (some v)).operator (row_condition name (some v)).value (some w)
      → w ≡ v
  unfolding row_condition
  row-Means_eq name null w h = cc
  row-Means_eq name (bool b) w h = cc (h.0)
  row-Means_eq name (num b) w h = cc (h.0)
  row-Means_eq name (str b) w h = cc (h.0)
  row-Means_eq name (compound b t) w h = cc (h.0)

  row_condition-column : (name : Text) (v : Value N) → (row_condition name (some v)).column ≡ name
  unfolding row_condition
  row_condition-column name null = refl
  row_condition-column name _ = refl

  cell-ne :
      (c d : Text) (cs : List Text) (v : Value N) (row : List (Value N))
      → d ≢ c
      → cell (c ∷ cs) (v ∷ row) d ≡ cell cs row d
  unfolding cell
  cell-ne c d cs v row h = elim (text_eq_cases c d) [
    | inl (e, _) ↦ absurd (h (sym e))
    | inr (_, e) ↦ rw e
  ]

  cell_self :
      (c : Text) (cs : List Text) (v : Value N) (row : List (Value N))
      → cell (c ∷ cs) (v ∷ row) c ≡ some v
  unfolding cell
  cell_self c cs v row = rw (text_eq_refl c)

  -- A condition about another column does not look at the first one.
  module _ (c : Text) (cs : List Text) (v : Value N) (vs : List (Value N)) where
    Holds-tail :
        (d : Text) (x : Value N)
        → d ≢ c
        → Holds (c ∷ cs) (v ∷ vs) (row_condition d (some x))
          ↔ Holds cs vs (row_condition d (some x))
    Holds-tail d x h =
        let w = row_condition {N = N} d (some x) in
        let p : cell (c ∷ cs) (v ∷ vs) w.column ≡ cell cs vs w.column =
          rw (row_condition-column d x) (cell-ne c d cs v vs h) in
        (subst (Means w.operator w.value) p, subst (Means w.operator w.value) (sym p))

    All-Holds-tail :
        (columns : List Text) (row : List (Value N))
        → AreNames columns
        → length row ≡ length columns
        → All (λ d. d ≢ c) columns
        → All (Holds (c ∷ cs) (v ∷ vs)) (build_row_where row columns)
          ↔ All (Holds cs vs) (build_row_where row columns)
    unfolding build_row_where
    All-Holds-tail [] row n l h = (λ a. a, λ a. a)
    All-Holds-tail (d ∷ columns) [] n l h = absurd (omega arith)
    All-Holds-tail (d ∷ columns) (x ∷ row) n l h =
        let (to, from) = Holds-tail d x h.0 in
        let (tos, froms) = All-Holds-tail columns row n.2 (omega arith) h.1 in
        rw (n.0) (λ a. (to a.0, tos a.1), λ a. (from a.0, froms a.1))

  -- The condition of a value holds of a row with `y` in that column exactly if `y` is the value.
  Holds-self :
      (c : Text) (cs : List Text) (x y : Value N) (vs : List (Value N))
      → Holds (c ∷ cs) (y ∷ vs) (row_condition c (some x)) ↔ (y ≡ x)
  Holds-self c cs x y vs =
      let w = row_condition {N = N} c (some x) in
      let p : cell (c ∷ cs) (y ∷ vs) w.column ≡ some y =
        rw (row_condition-column c x) (cell_self c cs y vs) in
      (
        λ h. row-Means_eq c x y (subst (Means w.operator w.value) p h),
        λ e.
            subst (Means w.operator w.value) (sym p)
              (subst (λ z. Means w.operator w.value (some z)) (sym e) (row-Means c x)),
      )

-- For columns with distinct names that are not empty, and rows with a value for each of them as the
-- interface has received it, the conditions of a row, `=` read as equality with a value that is there
-- and `IS NULL` as null, hold of another row exactly if that row has the same value in every column.
pub build_row_where_iff :
    {N : Type 0} (columns : List Text) (row other : List (Value N))
    → AreNames columns
    → length row ≡ length columns
    → length other ≡ length columns
    → All (Holds columns other) (build_row_where row columns) ↔ (other ≡ row)
unfolding build_row_where
build_row_where_iff [] [] [] n l k = (λ _. refl, λ _. tt)
build_row_where_iff [] (x ∷ row) other n l k = absurd (omega arith)
build_row_where_iff [] [] (y ∷ other) n l k = absurd (omega arith)
build_row_where_iff (c ∷ columns) [] other n l k = absurd (omega arith)
build_row_where_iff (c ∷ columns) (x ∷ row) [] n l k = absurd (omega arith)
build_row_where_iff (c ∷ columns) (x ∷ row) (y ∷ other) n l k =
    let (to, from) = build_row_where_iff columns row other n.2 (omega arith) (omega arith) in
    let (tos, froms) = All-Holds-tail c columns y other columns row n.2 (omega arith) n.1 in
    let here = Holds-self c columns x y other in
    rw (n.0) (λ a. cc (here.0 a.0, to (tos a.1)), λ e. (here.1 (cc), froms (from (cc))))
