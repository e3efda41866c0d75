-- ===== src/Statement.antt =====
-- `Statement::InternalFetchRow` and SqlResultToRowResult (src/odbc/src/statement.cpp): a fetch of a row
-- array through the statement's query. The offsets of an application buffer are parameters.
pub mod RowArray
mod Examples
use amazon_timestream_odbc_d.Base.{
  ltb, ◌==◌, if◌then◌else◌, bytes, ℕ, zero, suc, ◌+◌, Option, none, some, List, [], ◌∷◌, map,
}
use amazon_timestream_odbc_d.SqlTypes.{
  SqlResult, success_with_info, no_data, need_data, s24000_invalid_cursor_state,
}
use amazon_timestream_odbc_d.Diagnostic.Storage.{add_status_record, DiagnosticRecordStorage}
use mathlib.Core.Option
use amazon_timestream_odbc_d.Cursor.{Columns}
use amazon_timestream_odbc_d.DataQuery.State.{Service, QueryState}
use amazon_timestream_odbc_d.DataQuery.Worker.{◌>>=◌}
use amazon_timestream_odbc_d.DataQuery.Fetch.{Bindings, fetch_next_row}

pub data RowStatus : Type 0 where
  sql_row_norow sql_row_success sql_row_success_with_info sql_row_error : RowStatus

unfoldable pub sql_result_to_row_result : SqlResult → RowStatus
sql_result_to_row_result no_data = sql_row_norow
sql_result_to_row_result SqlResult.success = sql_row_success
sql_result_to_row_result success_with_info = sql_row_success_with_info
sql_result_to_row_result _ = sql_row_error

-- The counters of the loop, read off the results of its rounds.
pub count_fetched : List SqlResult → ℕ
count_fetched [] = 0
count_fetched (SqlResult.success ∷ rs) = count_fetched rs + 1
count_fetched (success_with_info ∷ rs) = count_fetched rs + 1
count_fetched (r ∷ rs) = count_fetched rs

pub count_errors : List SqlResult → ℕ
count_errors [] = 0
count_errors (SqlResult.error ∷ rs) = count_errors rs + 1
count_errors (need_data ∷ rs) = count_errors rs + 1
count_errors (r ∷ rs) = count_errors rs

unfoldable pub array_result : ℕ → ℕ → SqlResult
array_result fetched errors =
    if ltb 0 fetched
    then (if errors == 0 then SqlResult.success else success_with_info)
    else if errors == 0
    then no_data
    else SqlResult.error

module _ {c : Columns} (v : Service c)
    (set_element_offset set_byte_offset : ℕ → c.Buffer → c.Buffer) where
  -- `rows_fetched` and `row_statuses` are the caller's, where it gave them; of the latter only
  -- the entries of the array are written. The records of the
  -- statement are those of its query while it has one, and `diag` otherwise.
  pub record Statement : Type 0 where
    pub current_query : Option (QueryState c)
    pub column_bindings : Bindings c
    pub column_bind_offset : Option ℕ
    pub row_array_size : ℕ
    pub cell_offset : ℕ
    pub rows_fetched : Option ℕ
    pub row_statuses : Option (List RowStatus)
    pub diag : DiagnosticRecordStorage

  abbrev pub place : (c.Buffer → c.Buffer) → Bindings c → Bindings c
  place f = map (λ p. (p.0, f p.1))

  abbrev pub bind_offset : Option ℕ → ℕ
  bind_offset none = 0
  bind_offset (some n) = n

  -- The loop over the row array: the rounds left, and the number of the round.
  pub fetch_array :
      ℕ → ℕ → Bindings c → QueryState c → Option (List SqlResult × Bindings c × QueryState c)
  fetch_array zero i b s = some ([], b, s)
  fetch_array (suc n) i b s = fetch_next_row v (place (set_element_offset i) b) s >>= λ out.
      fetch_array n (i + 1) out.1 out.2 >>= λ rest. some (out.0 ∷ rest.0, rest.1, rest.2)

  -- What is left of the loop in the statement and in the caller's cells.
  pub finish_array : Statement → List SqlResult × Bindings c × QueryState c → SqlResult × Statement
  finish_array t (results, b, s) = (
    array_result (count_fetched results) (count_errors results),
    record t {
      current_query = some s;
      column_bindings = b;
      cell_offset = 0;
      rows_fetched = Option.map (λ n. count_fetched results) t.rows_fetched;
      row_statuses = Option.map (λ l. map sql_result_to_row_result results) t.row_statuses;
    },
  )

  pub fetch_query : Option (QueryState c) → Statement → Option (SqlResult × Statement)
  fetch_query none t = some (
    SqlResult.error,
    record t {
      rows_fetched = Option.map (λ n. 0) t.rows_fetched;
      diag =
          add_status_record s24000_invalid_cursor_state (bytes "Cursor is not in the open state.")
            t.diag;
    },
  )
  fetch_query (some s) t =
      fetch_array t.row_array_size 0
        (place (set_byte_offset (bind_offset t.column_bind_offset)) t.column_bindings) s
      >>= λ out. some (finish_array t out)

  pub internal_fetch_row : Statement → Option (SqlResult × Statement)
  internal_fetch_row t = fetch_query t.current_query t
