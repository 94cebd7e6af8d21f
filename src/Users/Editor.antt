-- ===== src/Users/Editor.antt =====
-- The state that EditAuthUserDialog.tsx and EditPostgresUserDialog.tsx (backend/ui/src/components/
-- dialogs) share: the dialog is mounted once, the page hands it the row whose pencil was clicked, and
-- an effect fills the form when the object `user` becomes another one.
pub mod Filled
use pgmanager.Common.{
  run, ℕ, Bool, true, false, not, Option, none, some, List, [], ◌∷◌, ◌==◌, if◌then◌else◌,
}

-- A form for a user of type `U`: its values before any user, how the effect fills it, and its inputs.
pub record EditForm : Type 1 where
  pub U : Type 0
  pub F : Type 0
  pub I : Type 0
  pub blank : F
  pub fill : U → F → F
  pub change : I → F → F

-- A row of the table; `ref` tells the objects apart, since the effect compares them by identity.
pub record Row (U : Type 0) : Type 0 where
  pub ref : ℕ
  pub user : U

module _ (E : EditForm) where
  pub record Editor : Type 0 where
    pub is_open : Bool
    pub row : Option (Row E.U)
    pub form : E.F

  unfoldable pub mounted : Editor
  mounted = record { is_open = false; row = none; form = E.blank }

  -- Whether the effect runs when `user` becomes the user of that row.
  unfoldable pub is_other : Option (Row E.U) → Row E.U → Bool
  is_other none r = true
  is_other (some r') r = not (r'.ref == r.ref)

  pub data Event : Type 0 where
    pencil : Row E.U → Event
    input : E.I → Event
    close : Event

  unfoldable pub step : Event → Editor → Editor
  unfolding is_other
  step (pencil r) s = record {
    is_open = true;
    row = some r;
    form = if is_other s.row r then E.fill r.user s.form else s.form;
  }
  step (input i) s = if s.is_open then record s { form = E.change i s.form } else s
  step close s = record s { is_open = false }

  unfoldable pub steps : List Event → Editor → Editor
  unfolding step
  steps es s = run step es s
