-- ===== src/Api/Data.antt =====
-- backend/ui/src/api/data.ts: the requests on tables and queries. `serialise` stands for `toString` of
-- `URLSearchParams`.
use pgmanager.Common.{
  ℕ, none, some, List, [], ◌∷◌, ◌++◌, Text, text, show_nat, is_empty, ◌==◌, if◌then◌else◌,
}
use pgmanager.Schemas.{Value, WhereCondition, ColumnDef}
use pgmanager.Api.{Request, Fields, post, put, delete, string, plain_get}

-- The parameters of `fetchData`; 0 and the empty text are what is falsy.
pub record FetchOptions : Type 0 where
  pub limit : ℕ
  pub offset : ℕ
  pub sort : Text
  pub order : Text

abbrev pub number_param : Text → ℕ → List (Text × Text)
number_param key n = if n == 0 then [] else (key, show_nat n) ∷ []

abbrev pub text_param : Text → Text → List (Text × Text)
text_param key s = if is_empty s then [] else (key, s) ∷ []

-- The parameters that are set, in order.
unfoldable pub search_params : FetchOptions → List (Text × Text)
search_params p =
    number_param (text "limit") p.limit
    ++ (number_param (text "offset") p.offset
        ++ (text_param (text "sort") p.sort ++ text_param (text "order") p.order))

-- `qs ? "?" + qs : ""`
unfoldable pub query_string : Text → Text
query_string qs = if is_empty qs then [] else text "?" ++ qs

unfoldable pub execute_query : (Text → Text) → Text → Text → Request Fields
execute_query encode db_name sql = record {
  method = post;
  path = text "/databases/" ++ (encode db_name ++ text "/query");
  body = some ((text "sql", string sql) ∷ []);
}

module _ (encode : Text → Text) where
  unfoldable pub fetch_columns : Text → Text → Request Fields
  fetch_columns db_name table =
      plain_get (text "/databases/" ++ (encode db_name ++ (text "/columns/" ++ encode table)))

  unfoldable pub fetch_data :
      (List (Text × Text) → Text) → Text → Text → FetchOptions → Request Fields
  unfolding search_params query_string
  fetch_data serialise db_name table p = plain_get (
      text "/databases/"
      ++ (encode db_name
          ++ (text "/data/" ++ (encode table ++ query_string (serialise (search_params p))))))

  abbrev pub data_path : Text → Text → Text
  data_path db_name table =
      text "/databases/" ++ (encode db_name ++ (text "/data/" ++ encode table))

  -- The bodies of the three changes of rows.
  pub record Change (N : Type 0) : Type 0 where
    pub values : List (Text × Value N)
    pub where_ : List (WhereCondition N)

  module _ {N : Type 0} where
    unfoldable pub insert_row :
        Text → Text → List (Text × Value N) → Request (List (Text × Value N))
    insert_row db_name table values = record {
      method = post;
      path = data_path db_name table;
      body = some values;
    }

    unfoldable pub update_row :
        Text → Text → List (Text × Value N) → List (WhereCondition N) → Request (Change N)
    update_row db_name table values conditions = record {
      method = put;
      path = data_path db_name table;
      body = some (record { values = values; where_ = conditions });
    }

    unfoldable pub delete_row :
        Text → Text → List (WhereCondition N) → Request (List (WhereCondition N))
    delete_row db_name table conditions = record {
      method = delete;
      path = data_path db_name table;
      body = some conditions;
    }

  abbrev pub columns_path : Text → Text → Text
  columns_path db_name table =
      text "/databases/"
      ++ (encode db_name ++ (text "/tables/" ++ (encode table ++ text "/columns")))

  unfoldable pub add_column : Text → Text → ColumnDef → Request ColumnDef
  add_column db_name table column = record {
    method = post;
    path = columns_path db_name table;
    body = some column;
  }

  unfoldable pub drop_column : Text → Text → Text → Request Fields
  drop_column db_name table column = record {
    method = delete;
    path =
        text "/databases/"
        ++ (encode db_name
            ++ (text "/tables/" ++ (encode table ++ (text "/columns/" ++ encode column))));
    body = none;
  }
