-- ===== src/Ui.antt =====
-- What the components of backend/ui/src do beside changing their own state: toasts, the callback
-- `onOpenChange(false)` of a dialog, and the queries whose cached data they invalidate.
use pgmanager.Common.{Text, List, Option, none, some, Integer, parse_int, is_empty, if◌then◌else◌}

pub data Effect : Type 0 where
  toast_success toast_error : Text → Effect
  close : Effect
  invalidate : List Text → Effect

-- `s ? parseInt(s, 10) : undefined`
unfoldable pub optional_int : Text → Option Integer
optional_int s = if is_empty s then none else some (parse_int s)
