-- ===== src/Rows/Detail/Safety.antt =====
-- What holds of the page of a table over every sequence of events.
use pgmanager.Common.{
  not, ◌||◌, ◌≡◌, ◌⊎◌, refl, Bool, true, false, ◌||◌, none, is_some, List, [], ◌∷◌, arith,
}
use pgmanager.Rows.Detail.{Detail, initial, Event, step, steps}

module _ {N : Type 0} where
  -- No dialog that writes is open.
  pub record IsReadOnly (s : Detail N) : Type 0 where
    pub no_insert : s.insert_open ≡ false
    pub no_edit : s.edit_open ≡ false
    pub no_delete : s.delete_where ≡ none
    pub no_column : s.add_col_open ≡ false

  step-IsReadOnly : (s : Detail N) (e : Event N) → IsReadOnly s → IsReadOnly (step false s e)
  unfolding step
  step-IsReadOnly s e h = ground arith

  steps-IsReadOnly :
      (s : Detail N) (es : List (Event N)) → IsReadOnly s → IsReadOnly (steps false s es)
  unfolding steps
  steps-IsReadOnly s [] h = h
  steps-IsReadOnly s (e ∷ es) h = steps-IsReadOnly (step false s e) es (step-IsReadOnly s e h)

  -- A user who may not write gets to none of the dialogs that write, whatever is clicked.
  pub viewer-IsReadOnly : (es : List (Event N)) → IsReadOnly (steps false initial es)
  unfolding initial
  viewer-IsReadOnly es =
      steps-IsReadOnly initial es
        (record { no_insert = refl; no_edit = refl; no_delete = refl; no_column = refl })

  -- The edit dialog has a row while it is open.
  abbrev pub HasRow : Detail N → Type 0
  HasRow s = (not s.edit_open || is_some s.edit_row) ≡ true

  -- A change of the order shows the first page.
  abbrev pub IsReset : Detail N → Detail N → Type 0
  IsReset s t = (t.sort_col ≡ s.sort_col) × (t.sort_dir ≡ s.sort_dir) ⊎ (t.page ≡ 0)

  step-HasRow :
      (can_write : Bool) (s : Detail N) (e : Event N) → HasRow s → HasRow (step can_write s e)
  unfolding step
  step-HasRow can_write s e h = ground arith

  step-IsReset : (can_write : Bool) (s : Detail N) (e : Event N) → IsReset s (step can_write s e)
  unfolding step
  step-IsReset can_write s e = ground arith

  steps-HasRow :
      (can_write : Bool) (s : Detail N) (es : List (Event N))
      → HasRow s
      → HasRow (steps can_write s es)
  unfolding steps
  steps-HasRow can_write s [] h = h
  steps-HasRow can_write s (e ∷ es) h =
      steps-HasRow can_write (step can_write s e) es (step-HasRow can_write s e h)

  -- After any events the edit dialog has a row while it is open; and an event that changes the column
  -- or the direction of the order shows the first page.
  pub steps-order :
      (can_write : Bool) (es : List (Event N)) (e : Event N)
      → let s = steps can_write initial es in HasRow s × IsReset s (step can_write s e)
  unfolding initial
  steps-order can_write es e = (
    steps-HasRow can_write initial es refl,
    step-IsReset can_write (steps can_write initial es) e,
  )
