-- ===== src/Rows/Detail.antt =====
-- backend/ui/src/routes/TableDetail.tsx with the handlers of components/tabs/DataTab.tsx, and
-- components/dialogs/DeleteRowConfirm.tsx: the state of the page of a table.
pub mod Safety
use pgmanager.Common.{
  ℕ, ◌*◌, Bool, true, false, not, ◌&&◌, ◌||◌, Option, none, some, List, [], ◌∷◌, ◌++◌, Text, text,
  text_eq, is_empty, if◌then◌else◌,
}
use pgmanager.Schemas.{Value, WhereCondition}
use pgmanager.Ui.{Effect, toast_success, toast_error, close, invalidate}
use pgmanager.Pager.{Click, click, offset}
use pgmanager.Rows.Where.{build_row_where}

pub data Direction : Type 0 where
  asc desc : Direction

pub record Detail (N : Type 0) : Type 0 where
  pub tab : Text
  pub page : ℕ
  pub sort_col : Text
  pub sort_dir : Direction
  pub insert_open : Bool
  pub edit_open : Bool
  pub edit_row : Option (List (Value N))
  pub delete_where : Option (List (WhereCondition N))
  pub add_col_open : Bool

-- `PAGE_SIZE`
abbrev pub page_size : ℕ
page_size = 100

abbrev pub flip : Direction → Direction
flip asc = desc
flip desc = asc

-- The parameters that `fetchData` is called with; `sort` is left out for the empty column.
pub record FetchParams : Type 0 where
  pub limit : ℕ
  pub offset : ℕ
  pub sort : Option Text
  pub order : Direction

module _ {N : Type 0} where
  unfoldable pub initial : Detail N
  initial = record {
    tab = text "data";
    page = 0;
    sort_col = [];
    sort_dir = asc;
    insert_open = false;
    edit_open = false;
    edit_row = none;
    delete_where = none;
    add_col_open = false;
  }

  unfoldable pub fetch_params : Detail N → FetchParams
  unfolding offset
  fetch_params s = record {
    limit = page_size;
    offset = offset page_size s.page;
    sort = if is_empty s.sort_col then none else some s.sort_col;
    order = s.sort_dir;
  }

  -- `handleSort`
  unfoldable pub handle_sort : Text → Detail N → Detail N
  handle_sort col s =
      if text_eq s.sort_col col
      then record s { sort_dir = flip s.sort_dir; page = 0 }
      else record s { sort_col = col; sort_dir = asc; page = 0 }

pub data Event (N : Type 0) : Type 0 where
  set_tab sort : Text → Event N
  -- a click on a button of the pager, with the number of rows
  turn : Option ℕ → Click → Event N
  insert add_column : Event N
  -- the pencil of a row, and its bin, with the columns of the data
  edit : List (Value N) → Event N
  delete : List (Value N) → List Text → Event N
  -- `onOpenChange(false)` of the four dialogs
  close_insert close_edit close_delete close_add_column : Event N

module _ {N : Type 0} where
  -- The buttons that write are there only with `canWrite`. The dialogs have no trigger of their own,
  -- so they call `onOpenChange` with `false` alone.
  unfoldable pub step : Bool → Detail N → Event N → Detail N
  unfolding handle_sort
  step can_write s (set_tab v) = record s { tab = v }
  step can_write s (sort col) = handle_sort col s
  step can_write s (turn total c) = record s { page = click page_size total c s.page }
  step can_write s insert = if can_write then record s { insert_open = true } else s
  step can_write s add_column = if can_write then record s { add_col_open = true } else s
  step can_write s (edit row) =
      if can_write then record s { edit_row = some row; edit_open = true } else s
  step can_write s (delete row columns) =
      if can_write then record s { delete_where = some (build_row_where row columns) } else s
  step can_write s close_insert = record s { insert_open = false }
  step can_write s close_edit = record s { edit_open = false }
  step can_write s close_delete = record s { delete_where = none }
  step can_write s close_add_column = record s { add_col_open = false }

  unfoldable pub steps : Bool → Detail N → List (Event N) → Detail N
  steps can_write s [] = s
  steps can_write s (e ∷ es) = steps can_write (step can_write s e) es

pub data Deletion (N : Type 0) : Type 0 where
  thrown : Text → Deletion N
  delete_row : List (WhereCondition N) → Deletion N

-- `mutationFn` of DeleteRowConfirm
unfoldable pub submit_delete : {N : Type 0} → Option (List (WhereCondition N)) → Deletion N
submit_delete none = thrown (text "No row selected")
submit_delete (some conditions) = delete_row conditions

-- `onSuccess` and `onError` of DeleteRowConfirm
unfoldable pub deleted : Text → Text → Option Text → List Effect
deleted db table none =
    toast_success (text "Row deleted") ∷ close ∷ invalidate (text "data" ∷ db ∷ table ∷ []) ∷ []
deleted db table (some e) = toast_error e ∷ []
