-- ===== src/Settings/Pool/Shown.antt =====
-- backend/ui/src/routes/Settings.tsx, "Connection Pool": what is shown of the form.
use pgmanager.Common.{
  ◌≡◌, refl, Bool, true, false, not, ◌||◌, ◌&&◌, Integer, Option, none, some, is_some, List, [],
  ◌∷◌, Text, text, text_eq, if◌then◌else◌,
}
use pgmanager.Settings.Pool.{Form, has_changes, click_save}

pub record Card : Type 0 where
  pub pool_mode : Text
  pub modes : List Text
  pub hint : Text
  pub default_pool_size : Integer
  pub max_client_conn : Integer
  pub is_disabled : Bool

-- The sentence below the choice of the mode.
unfoldable pub hint : Text → Text
hint mode =
    if text_eq mode (text "transaction")
    then text "Best for most applications — connections released after transaction completes"
    else if text_eq mode (text "session")
    then text "Connections held until client disconnects — safe but slower"
    else text "Connections released after each statement — fastest but breaks stateful features"

-- The card, unless the configuration is loading.
unfoldable pub card : Bool → Form → Option Card
unfolding hint
card true s = none
card false s = some (record {
  pool_mode = s.local_config.pool_mode;
  modes = text "session" ∷ text "transaction" ∷ text "statement" ∷ [];
  hint = hint s.local_config.pool_mode;
  default_pool_size = s.local_config.default_pool_size;
  max_client_conn = s.local_config.max_client_conn;
  is_disabled = not (has_changes s) || s.is_pending;
})

abbrev can_save : Option Card → Bool
can_save none = false
can_save (some c) = not c.is_disabled

-- A click on "Save" sends the configuration exactly when the button of the card can be clicked.
pub can_save-click_save : (s : Form) → can_save (card false s) ≡ is_some (click_save s)
unfolding card click_save
can_save-click_save s = by_tests (has_changes s) s.is_pending
  where
    by_tests :
        (changed pending : Bool)
        → not (not changed || pending)
          ≡ is_some (if changed && not pending then some s.local_config else none)
    by_tests true true = refl
    by_tests true false = refl
    by_tests false pending = refl
